-- ===== src/Policy/Terms.antt =====
-- The forbidden terms, as the source lists them.
use aipowergateway.Prelude.{List, [], ◌∷◌}
use aipowergateway.Prelude.Text.{Text, text}

pub data PolicyCategory : Type 0 where
  mining deepfake : PolicyCategory

unfoldable pub category_as_str : PolicyCategory → Text
category_as_str mining = text "mining"
category_as_str deepfake = text "deepfake"

pub record PolicyRule : Type 0 where
  pub category : PolicyCategory
  pub terms : List Text

abbrev mining_terms : List Text
mining_terms =
    text "挖矿木马"
    ∷ text "挖矿脚本"
    ∷ text "挖矿程序"
    ∷ text "挖矿软件"
    ∷ text "矿池"
    ∷ text "矿机"
    ∷ text "挖币"
    ∷ text "xmrig"
    ∷ text "ethminer"
    ∷ text "teamtredminer"
    ∷ text "mining pool"
    ∷ text "cryptomining"
    ∷ text "crypto miner"
    ∷ text "monero miner"
    ∷ text "miner program"
    ∷ text "cryptocurrency miner"
    ∷ []

abbrev deepfake_terms : List Text
deepfake_terms =
    text "换脸"
    ∷ text "伪造视频"
    ∷ text "伪造人脸"
    ∷ text "伪造语音"
    ∷ text "语音克隆"
    ∷ text "音色克隆"
    ∷ text "变声冒充"
    ∷ text "人脸替换"
    ∷ text "deepfake"
    ∷ text "deep fake"
    ∷ text "deepfacelab"
    ∷ text "face swap"
    ∷ text "face-swap"
    ∷ text "voice clone"
    ∷ text "voice cloning"
    ∷ text "face swap video"
    ∷ text "deepfake video"
    ∷ []

-- `RULES`
unfoldable pub policy_rules : List PolicyRule
policy_rules =
    record { category = mining; terms = mining_terms }
    ∷ record { category = deepfake; terms = deepfake_terms }
    ∷ []
