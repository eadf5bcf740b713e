-- ===== src/Ipc/Sessions/Effects.antt =====
-- What one step of the program can do to the PINs in memory and to the devices that count as
-- unlocked: nothing, clear them, forget one device, keep some, or add one.
use keynoxis.Base.{
  Bool, true, false, List, [], String, ◌≡◌, String_eq, Nat_eq, retain, if◌then◌else◌, ◌∙◌,
}
use keynoxis.State.{RuntimeState, Backend_eq, Phase_eq}
use keynoxis.Ipc.{remove_pin, is_not_path}
use keynoxis.Ipc.Operation.Finish.{insert_pin, add_path}
use keynoxis.Device.Watcher.{retain_pins}

-- What one step does to the PINs and to the unlocked devices; `adds` says whether it can add one.
pub data Effect (adds : Bool) (pins : List (String × String)) (paths : List String)
    (pins' : List (String × String)) (paths' : List String) : Type 0 where
  kept : pins' ≡ pins → paths' ≡ paths → Effect adds pins paths pins' paths'
  cleared : pins' ≡ [] → paths' ≡ [] → Effect adds pins paths pins' paths'
  forgot :
      (path : String)
      → pins' ≡ remove_pin path pins
      → paths' ≡ retain (is_not_path path) paths
      → Effect adds pins paths pins' paths'
  restricted :
      (keep : String → Bool)
      → pins' ≡ retain_pins keep pins
      → paths' ≡ retain keep paths
      → Effect adds pins paths pins' paths'
  added :
      (path pin : String)
      → pins' ≡ insert_pin path pin pins
      → paths' ≡ add_path path paths
      → adds ≡ true
      → Effect adds pins paths pins' paths'

abbrev pub Allowed : Bool → RuntimeState → RuntimeState → Type 0
Allowed adds r r' =
    Effect adds r.pins r.app.unlocked_device_paths r'.pins r'.app.unlocked_device_paths

-- Nothing is added.
abbrev pub Change : RuntimeState → RuntimeState → Type 0
Change r r' = Allowed false r r'

-- Neither the PINs nor the unlocked devices change.
abbrev pub Same : RuntimeState → RuntimeState → Type 0
Same r r' = (r'.pins ≡ r.pins) × (r'.app.unlocked_device_paths ≡ r.app.unlocked_device_paths)

module _ {adds : Bool} {pins pins' : List (String × String)} {paths paths' : List String} where
  pub same-Change : (pins' ≡ pins) × (paths' ≡ paths) → Effect adds pins paths pins' paths'
  same-Change (p, q) = kept p q

  pub then_same :
      {pins1 : List (String × String)} {paths1 : List String}
      → Effect adds pins paths pins1 paths1
      → (pins' ≡ pins1) × (paths' ≡ paths1)
      → Effect adds pins paths pins' paths'
  then_same (kept a b) (p, q) = kept (p ∙ a) (q ∙ b)
  then_same (cleared a b) (p, q) = cleared (p ∙ a) (q ∙ b)
  then_same (forgot path a b) (p, q) = forgot path (p ∙ a) (q ∙ b)
  then_same (restricted keep a b) (p, q) = restricted keep (p ∙ a) (q ∙ b)
  then_same (added path pin a b c) (p, q) = added path pin (p ∙ a) (q ∙ b) c

module _ {ℓ} {A : Type ℓ} (r : RuntimeState) where
  pub if-Change :
      (b : Bool) (x y : RuntimeState × A)
      → Change r x.0
      → Change r y.0
      → Change r (if b then x else y).0
  if-Change true x y p q = p
  if-Change false x y p q = q

pub if_state-Change :
    (r : RuntimeState) (b : Bool) (x y : RuntimeState)
    → Change r x
    → Change r y
    → Change r (if b then x else y)
if_state-Change r true x y p q = p
if_state-Change r false x y p q = q
