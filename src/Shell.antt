-- ===== src/Shell.antt =====
-- The keyboard of the console's shell: web/src/components/console-chrome-provider.tsx and the
-- surfaces of web/src/lib/shortcuts.ts.
pub mod Reach
use attesta_ai_powered_soc.Prelude.{
  String, str_eq, Bool, true, false, Option, none, some, List, [], ◌∷◌, filter, any, find, not,
  ◌||◌, ◌&&◌, if◌then◌else◌,
}
use attesta_ai_powered_soc.Auth.{Role, analyst, senior, engineer, admin, auditor}

-- Without its icon. No `roles` stands for every role.
pub record Surface : Type 0 where
  pub href : String
  pub label : String
  pub chord_key : String
  pub roles : Option (List Role)

abbrev for_all : String → String → String → Surface
for_all href label chord_key = record {
  href = href;
  label = label;
  chord_key = chord_key;
  roles = none;
}

abbrev pub tenant_admin : Surface
tenant_admin = record {
  href = "/tenant-admin";
  label = "Tenant Admin";
  chord_key = "a";
  roles = some (admin ∷ auditor ∷ []);
}

abbrev pub surfaces : List Surface
surfaces =
    for_all "/" "Watchfloor" "w"
    ∷ for_all "/investigation-canvas" "Investigation Canvas" "i"
    ∷ for_all "/timeline" "Timeline Reconstructor" "t"
    ∷ for_all "/verdict-ledger" "Verdict Ledger" "v"
    ∷ for_all "/drift-monitor" "Drift Monitor" "d"
    ∷ for_all "/response-console" "Response Console" "r"
    ∷ for_all "/coverage-map" "Coverage Map" "c"
    ∷ for_all "/detection-studio" "Detection Studio" "s"
    ∷ tenant_admin
    ∷ []

abbrev same_role : Role → Role → Bool
same_role analyst analyst = true
same_role senior senior = true
same_role engineer engineer = true
same_role admin admin = true
same_role auditor auditor = true
same_role _ _ = false

abbrev pub permits : Role → Option (List Role) → Bool
permits role none = true
permits role (some roles) = any (same_role role) roles

abbrev pub reachable_surfaces : Role → List Surface
reachable_surfaces role = filter (λ (f : Surface). permits role f.roles) surfaces

-- `lower` is `key.toLowerCase()`, and `editable` what `isEditableTarget` says of the target.
pub record KeyboardEvent : Type 0 where
  pub key : String
  pub lower : String
  pub default_prevented : Bool
  pub editable : Bool
  pub meta_key : Bool
  pub ctrl_key : Bool
  pub alt_key : Bool

-- The provider's state and refs; `visited` is where the router was sent, the latest first.
pub record Chrome : Type 0 where
  pub palette_open : Bool
  pub help_open : Bool
  pub chord_active : Bool
  pub visited : List String

abbrev pub initial_chrome : Chrome
initial_chrome = record {
  palette_open = false;
  help_open = false;
  chord_active = false;
  visited = [];
}

-- also what the timer of 900 ms and the effect's clean-up call
abbrev pub clear_chord : Chrome → Chrome
clear_chord s = record s { chord_active = false }

abbrev pub surface_for : Role → KeyboardEvent → Option Surface
surface_for role e = find (λ (f : Surface). str_eq f.chord_key e.lower) (reachable_surfaces role)

abbrev pub go_to : Option Surface → Chrome → Chrome
go_to none s = s
go_to (some f) s = record s { visited = f.href ∷ s.visited }

abbrev on_plain_key : String → Chrome → Chrome
on_plain_key key s =
    if str_eq key "/"
    then record s { palette_open = true }
    else if str_eq key "?"
    then record s { help_open = true }
    else if str_eq key "g"
    then record s { chord_active = true }
    else s

abbrev on_modified_key : KeyboardEvent → Chrome → Chrome
on_modified_key e s =
    if (e.meta_key || e.ctrl_key) && str_eq e.lower "k" then record s { palette_open = true } else s

unfoldable pub on_chrome_key : Role → KeyboardEvent → Chrome → Chrome
on_chrome_key role e s =
    if e.default_prevented
    then s
    else if str_eq e.key "Escape"
    then record s { palette_open = false; help_open = false; chord_active = false }
    else if s.chord_active && not e.editable
    then go_to (surface_for role e) (clear_chord s)
    else if e.editable || e.meta_key || e.ctrl_key || e.alt_key
    then on_modified_key e s
    else on_plain_key e.key s

-- The shell is stepped by keys and by the timer.
pub data Step (role : Role) : Chrome → Chrome → Type 0 where
  pressed : {s : Chrome} (e : KeyboardEvent) → Step role s (on_chrome_key role e s)
  timed_out : {s : Chrome} → Step role s (clear_chord s)

pub data Reachable (role : Role) : Chrome → Type 0 where
  start : Reachable role initial_chrome
  after : {s s' : Chrome} → Reachable role s → Step role s s' → Reachable role s'
