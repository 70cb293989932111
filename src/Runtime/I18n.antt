-- ===== src/Runtime/I18n.antt =====
-- crates/runtime/src/i18n.rs: the two languages, their texts, and the file of the preference.
use aipowergateway.Prelude.{
  ◌≡◌, refl, ◌||◌, Option, List, [], ◌∷◌, ◌++◌, if◌then◌else◌, find, unwrap_or, or_else, map,
}
use mathlib.Core.Option
use aipowergateway.Prelude.Text.{Text, text, text_eq, starts_with, contains, trim}
use aipowergateway.Disk.{Disk, Backing, at_path, IsReliable, save_to, load_from}

pub data Lang : Type 0 where
  zh en : Lang

unfoldable pub lang_code : Lang → Text
lang_code zh = text "zh-CN"
lang_code en = text "en"

-- The variables LANG and LC_ALL; `lower` is `to_lowercase`.
unfoldable pub from_system : (Text → Text) → Option Text → Option Text → Lang
unfolding starts_with
from_system lower lang lc_all =
    if starts_with (lower (unwrap_or (or_else lang lc_all) [])) (text "zh") then zh else en

abbrev pub Dictionary : Type 0
Dictionary = List (Text × Text)

abbrev pub zh_dict : Dictionary
zh_dict =
    (text "app.name", text "AIPowerLink")
    ∷ (text "tray.server.menu", text "组长端")
    ∷ (text "tray.client.menu", text "组员端")
    ∷ (text "tray.open_console", text "打开管理面板")
    ∷ (text "tray.start_sharing", text "开启共享")
    ∷ (text "tray.pause_sharing", text "暂停共享")
    ∷ (text "tray.quit", text "退出")
    ∷ (text "tray.leaders", text "发现的组长")
    ∷ (text "tray.auto_discover", text "（启动后自动发现）")
    ∷ (text "tray.connection_status", text "接入状态")
    ∷ (text "tray.rename", text "修改显示名")
    ∷ (text "tray.show_usage", text "查看个人用量")
    ∷ (text "cli.starting", text "启动中...")
    ∷ (text "cli.sharing_enabled", text "共享已开启")
    ∷ (text "cli.sharing_paused", text "共享已暂停")
    ∷ (text "cli.broadcast", text "发现广播")
    ∷ (text "cli.tray_started", text "系统托盘已启动")
    ∷ (text "cli.tray_disabled", text "无托盘模式（纯命令行）")
    ∷ (text "cli.open_console", text "打开管理面板")
    ∷ (text "role.builtin_server", text "内置组长")
    ∷ (text "role.builtin_client", text "内置组员")
    ∷ (text "role.custom_server", text "自定义组长")
    ∷ (text "role.custom_client", text "自定义组员")
    ∷ (text "role.readonly", text "内置角色只读，请先 clone 后修改")
    ∷ (text "usage.total", text "总用量")
    ∷ (text "usage.calls", text "调用次数")
    ∷ []

abbrev pub en_dict : Dictionary
en_dict =
    (text "app.name", text "AIPowerLink")
    ∷ (text "tray.server.menu", text "Leader")
    ∷ (text "tray.client.menu", text "Member")
    ∷ (text "tray.open_console", text "Open console")
    ∷ (text "tray.start_sharing", text "Start sharing")
    ∷ (text "tray.pause_sharing", text "Pause sharing")
    ∷ (text "tray.quit", text "Quit")
    ∷ (text "tray.leaders", text "Discovered leaders")
    ∷ (text "tray.auto_discover", text "(auto-discover on start)")
    ∷ (text "tray.connection_status", text "Connection status")
    ∷ (text "tray.rename", text "Rename")
    ∷ (text "tray.show_usage", text "Show usage")
    ∷ (text "cli.starting", text "starting...")
    ∷ (text "cli.sharing_enabled", text "sharing enabled")
    ∷ (text "cli.sharing_paused", text "sharing paused")
    ∷ (text "cli.broadcast", text "discovery broadcast")
    ∷ (text "cli.tray_started", text "system tray started")
    ∷ (text "cli.tray_disabled", text "no-tray mode (CLI only)")
    ∷ (text "cli.open_console", text "open console")
    ∷ (text "role.builtin_server", text "Built-in Leader")
    ∷ (text "role.builtin_client", text "Built-in Member")
    ∷ (text "role.custom_server", text "Custom Leader")
    ∷ (text "role.custom_client", text "Custom Member")
    ∷ (text "role.readonly", text "builtin role is read-only; clone it to customize")
    ∷ (text "usage.total", text "Total usage")
    ∷ (text "usage.calls", text "Calls")
    ∷ []

abbrev pub dict_of : Lang → Dictionary
dict_of zh = zh_dict
dict_of en = en_dict

-- The current language and the text of the preference's file.
pub record I18n : Type 0 where
  pub lang : Lang
  pub file : Backing Text

unfoldable pub load_pref : Text → Lang
unfolding contains trim text_eq
load_pref content =
    if contains content (text "\"en\"") || text_eq (trim content) (text "en") then en else zh

unfoldable pub new : Backing Text → Lang → I18n
unfolding load_pref
new file system = record {
  lang = unwrap_or (Option.map load_pref (load_from file)) system;
  file = file;
}

abbrev pub pref_text : Lang → Text
pref_text l = text "{\"lang\":\"" ++ (lang_code l ++ text "\"}")

unfoldable pub set_lang : Disk Text → Lang → I18n → I18n
unfolding lang_code
set_lang disk l i = record { lang = l; file = save_to disk (pref_text l) i.file }

abbrev pub find_text : Dictionary → Text → Option Text
find_text d key = Option.map (λ (e : Text × Text). e.1) (find (λ e. text_eq e.0 key) d)

-- A key that is missing is looked up in English, and stands for itself at last.
unfoldable pub tr : I18n → Text → Text
unfolding text_eq
tr i key = unwrap_or (or_else (find_text (dict_of i.lang) key) (find_text en_dict key)) key

-- The preference that is written is the one that is read.
load_pref-pref_text : (l : Lang) → load_pref (pref_text l) ≡ l
unfolding load_pref lang_code contains trim text_eq starts_with
load_pref-pref_text zh = refl
load_pref-pref_text en = refl

-- Both dictionaries have the same keys in the same order.
same_keys : map (λ e. e.0) zh_dict ≡ map (λ e. e.0) en_dict
same_keys = refl

-- A language that is chosen is the language after a restart, whatever the system says, if the
-- preference has a file and the disk takes every write.
lang-new-set_lang :
    (disk : Disk Text) (l system : Lang) (i : I18n) (old : Option Text)
    → IsReliable disk
    → i.file ≡ at_path old
    → (new (set_lang disk l i).file system).lang ≡ l
unfolding new set_lang
lang-new-set_lang disk l system i old r h = rw (h, r old (pref_text l)) (load_pref-pref_text l)
