-- ===== src/Device/Objects/Ledger.antt =====
-- src/binder_object.rs, src/device.rs: the local count of an object is the number of guards that
-- will lower it.
pub mod Counting
pub mod Actions
use binderbinder.Base.{
  ℕ, ◌+◌, ◌-◌, ◌<◌, ◌≤◌, ◌≡◌, ◌≢◌, refl, sym, ap, ◌∙◌, Bool, true, false, ◌&&◌, ◌⊎◌, inl, inr,
  Option, none, some, List, [], ◌∷◌, ◌==◌, if◌then◌else◌, Run, ok, panic, Cmd, pure, ◌>>=◌, ◌>>◌,
  Map, insert, remove, arith, Bool-cases, Option-cases, subst,
}
use binderbinder.Base.Words.{u32_mod, usize_mod}
use binderbinder.Refcount.{ObjectId, ObjectRefState, RefCounts, new, increase_local, decrease_local}
use binderbinder.Refcount.History.{
  IsSound, sum, after, call, call-effect, after-IsSound, up_local, down_local, new-IsSound, Call,
}
use binderbinder.Device.{Device, Handler, same_id, same_id-eq}
use binderbinder.Device.Objects.Guards.{Guard, World, holds, without, count_for}

abbrev pub AllBelow : ℕ → List Guard → Type 0
AllBelow n [] = Unit
AllBelow n (g ∷ gs) = (g.id.id < n) × AllBelow n gs

pub record IsBalanced (w : World) : Type 0 where
  pub sound :
      (id : ObjectId) (r : ObjectRefState) → w.device.object_refcounts id ≡ some r → IsSound r
  pub balance :
      (id : ObjectId) (r : ObjectRefState)
      → w.device.object_refcounts id ≡ some r
      → r.counts.local ≡ count_for id w.guards
  pub counted_fresh :
      (id : ObjectId) (r : ObjectRefState)
      → w.device.object_refcounts id ≡ some r
      → id.id < w.device.object_id_counter
  pub object_fresh :
      (id : ObjectId) (h : Handler)
      → w.device.objects id ≡ some h
      → id.id < w.device.object_id_counter
  pub owned : AllBelow w.device.object_id_counter w.guards

pub insert-cases :
    {V : Type 0} (id : ObjectId) (a : V) (m : Map ObjectId V) (j : ObjectId) (b : V)
    → insert (same_id id) a m j ≡ some b
    → ((id ≡ j) × (a ≡ b)) ⊎ ((same_id id j ≡ false) × (m j ≡ some b))
insert-cases id a m j b h = elim (Bool-cases (same_id id j)) [
  | inl hit ↦ inl (same_id-eq id j hit, ground arith)
  | inr miss ↦ inr (miss, ground arith)
]

pub remove-some :
    {V : Type 0} (id : ObjectId) (m : Map ObjectId V) (j : ObjectId) (b : V)
    → remove (same_id id) m j ≡ some b
    → m j ≡ some b
remove-some id m j b h = ground arith

-- Guards that count the same for every registered object.
pub guards-IsBalanced :
    (w : World) (gs : List Guard)
    → IsBalanced w
    → ((id : ObjectId) (r : ObjectRefState)
        → w.device.object_refcounts id ≡ some r
        → count_for id gs ≡ count_for id w.guards)
    → AllBelow w.device.object_id_counter gs
    → IsBalanced (record w { guards = gs })
guards-IsBalanced w gs v same below = record {
  sound = v.sound;
  balance = λ id r e. v.balance id r e ∙ sym (same id r e);
  counted_fresh = v.counted_fresh;
  object_fresh = v.object_fresh;
  owned = below;
}

module _ (w : World) (v : IsBalanced w) (id : ObjectId) (r s : ObjectRefState)
    (e : w.device.object_refcounts id ≡ some r) where
  open v use {sound, balance, counted_fresh, object_fresh, owned}

  abbrev pub put : List Guard → World
  put gs = record {
    device = record w.device { object_refcounts = insert (same_id id) s w.device.object_refcounts };
    guards = gs;
  }

  pub put-IsBalanced :
      (gs : List Guard)
      → IsSound s
      → s.counts.local ≡ count_for id gs
      → ((j : ObjectId) → same_id id j ≡ false → count_for j gs ≡ count_for j w.guards)
      → AllBelow w.device.object_id_counter gs
      → IsBalanced (put gs)
  put-IsBalanced gs is_sound here elsewhere below = record {
    sound = λ j t h. elim (insert-cases id s w.device.object_refcounts j t h) [
      | inl (p, q) ↦ subst IsSound q is_sound
      | inr (n, m) ↦ sound j t m
    ];
    balance = λ j t h. elim (insert-cases id s w.device.object_refcounts j t h) [
      | inl (p, q) ↦ rw (← q, ← p) here
      | inr (n, m) ↦ balance j t m ∙ sym (elsewhere j n)
    ];
    counted_fresh = λ j t h. elim (insert-cases id s w.device.object_refcounts j t h) [
      | inl (p, q) ↦ rw (← p) (counted_fresh id r e)
      | inr (n, m) ↦ counted_fresh j t m
    ];
    object_fresh = object_fresh;
    owned = below;
  }

pub count_for-below :
    (n : ℕ) (id : ObjectId) (gs : List Guard) → AllBelow n gs → n ≤ id.id → count_for id gs ≡ 0
count_for-below n id [] b h = refl
count_for-below n id (g ∷ gs) b h = ground (arith, count_for-below n id gs b.1)

pub AllBelow-mono : (m n : ℕ) (gs : List Guard) → m ≤ n → AllBelow m gs → AllBelow n gs
AllBelow-mono m n [] h b = tt
AllBelow-mono m n (g ∷ gs) h b = (omega arith, AllBelow-mono m n gs h b.1)

pub AllBelow-without :
    (n : ℕ) (g : Guard) (gs : List Guard) → AllBelow n gs → AllBelow n (without g gs)
AllBelow-without n g [] b = tt
AllBelow-without n g (h ∷ hs) b = ground (arith, AllBelow-without n g hs b.1)

pub holds-below :
    (n : ℕ) (g : Guard) (gs : List Guard) → AllBelow n gs → holds g gs ≡ true → g.id.id < n
holds-below n g [] b h = cc
holds-below n g (k ∷ gs) b h = ground (arith, holds-below n g gs b.1)

-- Dropping a live guard takes its own unit from the count of its object, and nothing else.
pub count_for-without :
    (id : ObjectId) (g : Guard) (gs : List Guard)
    → holds g gs ≡ true
    → count_for id gs
      ≡ (if same_id g.id id && g.counted then 1 else 0) + count_for id (without g gs)
count_for-without id g [] h = cc
count_for-without id g (k ∷ gs) h = ground (arith, count_for-without id g gs)
