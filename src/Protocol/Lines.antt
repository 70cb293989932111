-- ===== src/Protocol/Lines.antt =====
-- The lines of a stream, and the chunks that are read from them.
use aipowergateway.Prelude.{
  ◌≡◌, refl, sym, ◌∙◌, ap, Bool, true, false, Option, none, some, List, [], ◌∷◌, ◌++◌, ◌==◌, ◌||◌,
  if◌then◌else◌, arith, All, ok, err,
}
use mathlib.Core.List.{append_assoc, append-nil}
use aipowergateway.Prelude.Text.{Text, text, text_eq, trim, trim_framed, starts_with}
use aipowergateway.Json.{Value}
use aipowergateway.Protocol.{Json}
use aipowergateway.Protocol.Stream.{chunk, data_line, data_lines}
use aipowergateway.Protocol.Assemble.{
  chop, drop_five, lines, lines_from, Assembly, absorb, payload_of, absorb_lines,
}

abbrev pub has_newline : Text → Bool
has_newline [] = false
has_newline (c ∷ s) = (c == 10) || has_newline s

-- The value is printed as an object on one line, and read back.
pub record IsRead (j : Json) (v : Value) : Type 0 where
  pub body : Text
  pub printed : j.print v ≡ b'{' ∷ (body ++ b'}' ∷ [])
  pub flat : has_newline body ≡ false
  pub reads : j.parse (j.print v) ≡ some v

chop_framed : (s : Text) → chop (s ++ b'}' ∷ []) ≡ s ++ b'}' ∷ []
chop_framed [] = refl
chop_framed (c ∷ []) = refl
chop_framed (c ∷ d ∷ s) = ap (λ l. c ∷ l) (chop_framed (d ∷ s))

has_newline-append : (s t : Text) → has_newline (s ++ t) ≡ (has_newline s || has_newline t)
has_newline-append [] t = refl
has_newline-append (c ∷ s) t = ground (arith, has_newline-append s t)

-- The first line of a text.
lines_from-line :
    (acc s rest : Text)
    → has_newline s ≡ false
    → lines_from acc (s ++ 10 ∷ rest) ≡ chop (acc ++ s) ∷ lines_from [] rest
unfolding lines_from
lines_from-line acc [] rest h = ap (λ l. chop l ∷ lines_from [] rest) (sym (append-nil acc))
lines_from-line acc (c ∷ s) rest h =
    let other : (c == 10) ≡ false = ground arith in
    rw (other) (
      lines_from-line (acc ++ c ∷ []) s rest (ground arith) ∙ rw (append_assoc acc (c ∷ []) s) refl)

framed_line : Text → Text
framed_line body = text "data: {" ++ (body ++ b'}' ∷ [])

line_flat : (body : Text) → has_newline body ≡ false → has_newline (framed_line body) ≡ false
unfolding framed_line
line_flat body h = has_newline-append body (b'}' ∷ []) ∙ rw (h) refl

payload_of-framed_line :
    (body : Text) → payload_of (framed_line body) ≡ some (b'{' ∷ (body ++ b'}' ∷ []))
unfolding payload_of framed_line starts_with
payload_of-framed_line body =
    ap (λ line. if starts_with line (text "data:") then some (trim (drop_five line)) else none)
      (trim_framed b'd' b'}' (text "ata: {" ++ body) refl refl)
    ∙ ap some (trim_framed b'{' b'}' body refl refl)

module _ (j : Json) where
  lines-data_line :
      (v : Value) (more : Text) (r : IsRead j v)
      → lines (data_line j (j.print v) ++ more) ≡ framed_line r.body ∷ [] ∷ lines more
  unfolding lines framed_line lines_from
  lines-data_line v more r =
      ap (λ (p : Text). lines_from [] (data_line j p ++ more)) r.printed
      ∙ ap (λ (p : Text). lines_from [] (text "data: {" ++ p))
          (append_assoc (r.body ++ b'}' ∷ []) (text "\n\n") more)
      ∙ lines_from-line [] (framed_line r.body) (10 ∷ more) (line_flat r.body r.flat)
      ∙ ap (λ (l : Text). l ∷ [] ∷ lines_from [] more) (chop_framed (text "data: {" ++ r.body))

  absorb_lines-framed_line :
      (v : Value) (ls : List Text) (a : Assembly) (r : IsRead j v)
      → absorb_lines j (framed_line r.body ∷ [] ∷ ls) a ≡ absorb_lines j ls (absorb v a)
  unfolding absorb_lines text_eq
  absorb_lines-framed_line v ls a r =
      let rest = λ (b : Assembly). absorb_lines j ([] ∷ ls) b in
      ap
        (λ (o : Option Text). elim o [
          | none ↦ rest a
          | some payload ↦ elim (text_eq payload (text "[DONE]")) [
            | true ↦ ok a
            | false ↦ elim (j.parse payload) [
              | none ↦ err payload
              | some chunk ↦ rest (absorb chunk a)
            ]
          ]
        ])
        (payload_of-framed_line r.body)
      ∙ ap
          (λ (o : Option Value). elim o [
            | none ↦ err (b'{' ∷ (r.body ++ b'}' ∷ []))
            | some chunk ↦ rest (absorb chunk a)
          ])
          (ap j.parse (sym r.printed) ∙ r.reads)

-- The chunks, one after the other.
unfoldable pub absorb_all : List Value → Assembly → Assembly
absorb_all [] a = a
absorb_all (v ∷ vs) a = absorb_all vs (absorb v a)

end_marker : (j : Json) (a : Assembly) → absorb_lines j (lines (data_lines j [])) a ≡ ok a
unfolding absorb_lines payload_of text_eq starts_with lines trim
end_marker j a = refl

module _ (j : Json) where
  pub absorb_lines-data_lines :
      (vs : List Value) (a : Assembly)
      → All (IsRead j) vs
      → absorb_lines j (lines (data_lines j vs)) a ≡ ok (absorb_all vs a)
  unfolding absorb_all lines
  absorb_lines-data_lines [] a h = end_marker j a
  absorb_lines-data_lines (v ∷ vs) a (r, h) =
      ap (λ ls. absorb_lines j ls a) (lines-data_line j v (data_lines j vs) r)
      ∙ absorb_lines-framed_line j v (lines (data_lines j vs)) a r
      ∙ absorb_lines-data_lines vs (absorb v a) h
