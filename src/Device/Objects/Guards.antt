-- ===== src/Device/Objects/Guards.antt =====
-- src/binder_object.rs: the strong guards that a program holds on local objects, and what it does
-- with them. A guard is dropped once, as Rust's ownership has it.
use binderbinder.Base.{
  ℕ, ◌+◌, ◌<◌, ◌≡◌, ◌≢◌, Bool, true, false, ◌&&◌, Option, none, some, List, [], ◌∷◌, if◌then◌else◌,
  Run, ok, panic, Cmd, pure, ◌>>◌,
}
use binderbinder.Base.Words.{u32_mod, usize_mod}
use binderbinder.Refcount.{ObjectId, ObjectRefState}
use binderbinder.Refcount.History.{Call, up_local, down_local, call, IsAllowed, sum}
use binderbinder.Device.{Device, Handler, same_id, on_refcount}
use binderbinder.Device.Objects.{
  BinderObject, Borrowed, ObjectRef, register_object, remove_binder_object, borrow_from_id,
  clone_borrowed, drop_borrowed, object_to_borrowed, ref_from_id, clone_ref, drop_ref, as_erased,
}

-- A live strong handle: its object, and whether its `Drop` will lower the count.
pub record Guard : Type 0 where
  pub id : ObjectId
  pub counted : Bool

abbrev pub of_borrowed : Borrowed → Guard
of_borrowed b = record { id = b.id; counted = b.increased_local_ref }

abbrev pub of_ref : ObjectRef → Guard
of_ref r = record { id = r.id; counted = true }

pub record World : Type 0 where
  pub device : Device
  pub guards : List Guard

pub data Action : Type 0 where
  register : Handler → Action
  unregister : ObjectId → Action
  upgrade : ObjectId → Action
  to_object : BinderObject → Action
  downcast : ℕ → ObjectId → Action
  clone_borrow drop_borrow : Borrowed → Action
  clone_typed drop_typed erase : ObjectRef → Action
  remote : Call → ObjectId → Action

abbrev bool_eq : Bool → Bool → Bool
bool_eq true true = true
bool_eq false false = true
bool_eq _ _ = false

abbrev pub same_guard : Guard → Guard → Bool
same_guard g h = same_id g.id h.id && bool_eq g.counted h.counted

abbrev pub holds : Guard → List Guard → Bool
holds g [] = false
holds g (h ∷ hs) = if same_guard g h then true else holds g hs

-- The guards without one that is dropped.
abbrev pub without : Guard → List Guard → List Guard
without g [] = []
without g (h ∷ hs) = if same_guard g h then hs else h ∷ without g hs

-- How many live guards will lower the count of an object.
abbrev pub count_for : ObjectId → List Guard → ℕ
count_for id [] = 0
count_for id (g ∷ gs) = (if same_id g.id id && g.counted then 1 else 0) + count_for id gs

abbrev pub also : List Guard → Option Guard → List Guard
also gs none = gs
also gs (some g) = g ∷ gs

abbrev pub of_run :
    {A : Type 0} → List Guard → (A → Option Guard) → Run Device A → Run World (Unit {0})
of_run gs guard (ok a d) = ok tt (record { device = d; guards = also gs (guard a) })
of_run gs guard (panic d) = panic (record { device = d; guards = gs })

abbrev pub borrowed? : Option Borrowed → Option Guard
borrowed? none = none
borrowed? (some b) = some (of_borrowed b)

abbrev pub ref? : Option ObjectRef → Option Guard
ref? none = none
ref? (some r) = some (of_ref r)

module _ (checks : Bool) where
  unfoldable pub perform : Action → Cmd World (Unit {0})
  perform (register h) w = of_run w.guards (λ _. none) (register_object h w.device)
  perform (unregister id) w = of_run w.guards (λ _. none) (remove_binder_object id w.device)
  perform (upgrade id) w = of_run w.guards borrowed? (borrow_from_id checks id w.device)
  perform (to_object o) w =
      of_run w.guards (λ b. some (of_borrowed b)) (object_to_borrowed checks o w.device)
  perform (downcast t id) w = of_run w.guards ref? (ref_from_id checks t id w.device)
  perform (clone_borrow b) w =
      of_run w.guards (λ b. some (of_borrowed b)) (clone_borrowed checks b w.device)
  perform (drop_borrow b) w =
      of_run (without (of_borrowed b) w.guards) (λ _. none) (drop_borrowed checks b w.device)
  perform (clone_typed r) w = of_run w.guards (λ r. some (of_ref r)) (clone_ref checks r w.device)
  perform (drop_typed r) w =
      of_run (without (of_ref r) w.guards) (λ _. none) (drop_ref checks r w.device)
  perform (erase r) w = of_run w.guards (λ b. some (of_borrowed b)) (as_erased checks r w.device)
  perform (remote k id) w = of_run w.guards (λ _. none) (on_refcount (call checks k) id w.device)

  unfoldable pub perform_all : List Action → Cmd World (Unit {0})
  perform_all [] = pure tt
  perform_all (a ∷ actions) = perform a >> perform_all actions

-- One more ref fits in the object's counts.
abbrev pub HasRoom : ObjectId → World → Type 0
HasRoom id w =
    (r : ObjectRefState) → w.device.object_refcounts id ≡ some r → sum r.counts + 1 < u32_mod

-- The calls that the driver's messages and the sends make.
abbrev pub IsRemote : Call → Type 0
IsRemote up_local = ⊥
IsRemote down_local = ⊥
IsRemote _ = Unit

-- What the borrow checker and the sizes of the machine grant: the value that an action is made on
-- is live, and no counter is full. `as_erased` also wants the object registered. The driver releases
-- what it acquired.
abbrev pub IsGranted : Action → World → Type 0
IsGranted (register h) w = w.device.object_id_counter + 1 < usize_mod
IsGranted (unregister id) w = Unit
IsGranted (upgrade id) w = HasRoom id w
IsGranted (to_object o) w = HasRoom o.id w × (o.id.id < w.device.object_id_counter)
IsGranted (downcast t id) w = HasRoom id w
IsGranted (clone_borrow b) w = HasRoom b.id w × (holds (of_borrowed b) w.guards ≡ true)
IsGranted (drop_borrow b) w = holds (of_borrowed b) w.guards ≡ true
IsGranted (clone_typed r) w = HasRoom r.id w × (holds (of_ref r) w.guards ≡ true)
IsGranted (drop_typed r) w = holds (of_ref r) w.guards ≡ true
IsGranted (erase r) w =
    HasRoom r.id w × (w.device.objects r.id ≢ none) × (holds (of_ref r) w.guards ≡ true)
IsGranted (remote k id) w =
    IsRemote k
    × ((r : ObjectRefState) → w.device.object_refcounts id ≡ some r → IsAllowed k r.counts)

-- Each action is granted where the ones before it have led.
abbrev pub AllGranted : Bool → List Action → World → Type 0
AllGranted checks [] w = Unit
AllGranted checks (a ∷ actions) w =
    IsGranted a w × ((u : World) → perform checks a w ≡ ok tt u → AllGranted checks actions u)
