-- ===== src/Member/Tests.antt =====
-- Runs of the member registry after the tests of the source, and its laws at such inputs.
use aipowergateway.Prelude.{◌≡◌, refl, true, false, [], ◌∷◌}
use aipowergateway.Prelude.Text.{Text, text}
use aipowergateway.Prelude.Map.{lookup, insert, modify}
use aipowergateway.Prelude.Sort.{sort_by}
use aipowergateway.Member.{Member, MemberRegistry, new, upsert, rename, mark_offline, sweep, all}
use aipowergateway.Member.Laws.{IsValid, Op, apply, member_op-IsValid}

abbrev pc1 : Text
pc1 = text "pc-1"

abbrev started : MemberRegistry
started = record { inner = []; timeout_secs = 90; gateway_id = text "share:39091" }

abbrev alice : Member
alice = record {
  member_id = pc1;
  machine_name = pc1;
  ip = text "10.0.0.2";
  gateway_id = text "share:39091";
  display_name = text "alice";
  last_seen = 1000;
  joined_at = 1000;
  online = true;
}

abbrev joined : MemberRegistry
joined = record started { inner = (pc1, alice) ∷ [] }

upsert_and_rename :
    let r = (upsert 1000 pc1 [] (text "10.0.0.2") (new 90 (text "share:39091"))).0 in
    (rename pc1 (text "alice") r ≡ (joined, true)) × (all 1090 joined ≡ alice ∷ [])
unfolding upsert rename new lookup insert modify all sort_by
upsert_and_rename = (refl, refl)

offline_after_timeout : all 1091 (sweep 1091 joined) ≡ record alice { online = false } ∷ []
unfolding all sweep sort_by
offline_after_timeout = refl

mark_offline_shows : all 1000 (mark_offline pc1 joined) ≡ record alice { online = false } ∷ []
unfolding all mark_offline modify sort_by
mark_offline_shows = refl

member_op-IsValid_example : IsValid (apply (Op.leave pc1) joined)
unfolding lookup
member_op-IsValid_example =
    member_op-IsValid (Op.leave pc1) joined
      (record { unique = (refl, tt); keyed = ((refl, refl), tt) })
