-- ===== src/Refcount/Rollback.antt =====
-- src/device.rs: the credits that sends hold on an object (`pending`), taken before a send, given
-- back when it fails, and cleared by the first BR_ACQUIRE.
use binderbinder.Base.{
  ℕ, suc, zero, ◌+◌, ◌<◌, ◌≡◌, refl, sym, ap, ◌∙◌, Bool, List, [], ◌∷◌, ◌++◌, arith, ok, replicate,
}
use binderbinder.Base.Words.{u32_mod}
use binderbinder.Refcount.{RefCounts, ObjectRefState}
use binderbinder.Refcount.History.{
  Call, up_local, down_local, acquire, release, mark, rollback, run, effect, effects, sum,
  AllAllowed, IsSound, settled, run-effects,
}

-- Counts with one credit more.
abbrev bump : RefCounts → RefCounts
bump c = record c { pending = c.pending + 1 }

-- The calls that may fall between a send and its failure: any but those of the remote side, and
-- but the failure of another send.
abbrev pub IsQuiet : List Call → Type 0
IsQuiet [] = Unit
IsQuiet (acquire ∷ ks) = ⊥
IsQuiet (release ∷ ks) = ⊥
IsQuiet (rollback ∷ ks) = ⊥
IsQuiet (_ ∷ ks) = IsQuiet ks

effect-mark : (c : RefCounts) → c.remote ≡ 0 → effect mark c ≡ bump c
effect-mark c r = ground arith

effects-bump :
    (ks : List Call) (c : RefCounts)
    → IsQuiet ks
    → c.remote ≡ 0
    → effects ks (bump c) ≡ bump (effects ks c)
effects-bump [] c q r = refl
effects-bump (up_local ∷ ks) c q r = effects-bump ks (effect up_local c) q r
effects-bump (down_local ∷ ks) c q r = effects-bump ks (effect down_local c) q r
effects-bump (acquire ∷ ks) c q r = absurd q
effects-bump (release ∷ ks) c q r = absurd q
effects-bump (mark ∷ ks) c q r =
    ap (effects ks) (effect-mark (bump c) r)
    ∙ effects-bump ks (bump c) q r
    ∙ ap (λ d. bump (effects ks d)) (sym (effect-mark c r))
effects-bump (rollback ∷ ks) c q r = absurd q

AllAllowed-bump :
    (ks : List Call) (c : RefCounts)
    → IsQuiet ks
    → c.remote ≡ 0
    → AllAllowed ks (bump c)
    → AllAllowed ks c
AllAllowed-bump [] c q r h = tt
AllAllowed-bump (up_local ∷ ks) c q r h =
    (omega arith, AllAllowed-bump ks (effect up_local c) q r h.1)
AllAllowed-bump (down_local ∷ ks) c q r h = (h.0, AllAllowed-bump ks (effect down_local c) q r h.1)
AllAllowed-bump (acquire ∷ ks) c q r h = absurd q
AllAllowed-bump (release ∷ ks) c q r h = absurd q
AllAllowed-bump (mark ∷ ks) c q r h = (
  omega arith,
  rw (effect-mark c r) (AllAllowed-bump ks (bump c) q r (rw (effect-mark (bump c) r) at h.1)),
)
AllAllowed-bump (rollback ∷ ks) c q r h = absurd q

rollback-bump : (c : RefCounts) → effect rollback (bump c) ≡ c
rollback-bump c = ground arith

effects-rollback :
    (ks : List Call) (c : RefCounts)
    → effects (ks ++ (rollback ∷ [])) c ≡ effect rollback (effects ks c)
effects-rollback [] c = refl
effects-rollback (k ∷ ks) c = effects-rollback ks (effect k c)

AllAllowed-rollback :
    (ks : List Call) (c : RefCounts) → AllAllowed ks c → AllAllowed (ks ++ (rollback ∷ [])) c
AllAllowed-rollback [] c h = (tt, tt)
AllAllowed-rollback (k ∷ ks) c h = (h.0, AllAllowed-rollback ks (effect k c) h.1)

-- A failed send of an object with no remote ref leaves no trace: with the mark before and the
-- rollback after any calls that neither touch the remote count nor roll back, the state and what
-- is published are those of the calls alone. Other sends in between keep their credits.
rollback_exact :
    (checks : Bool) (ks : List Call) (s : ObjectRefState)
    → IsSound s
    → s.counts.remote ≡ 0
    → IsQuiet ks
    → AllAllowed (mark ∷ ks) s.counts
    → run checks (mark ∷ (ks ++ (rollback ∷ []))) s ≡ run checks ks s
rollback_exact checks ks s v r q h =
    let c = s.counts in
    let bumped : AllAllowed ks (bump c) = rw (effect-mark c r) at h.1 in
    let same : effects (mark ∷ (ks ++ (rollback ∷ []))) c ≡ effects ks c =
      ap (effects (ks ++ (rollback ∷ []))) (effect-mark c r)
      ∙ effects-rollback ks (bump c)
      ∙ ap (effect rollback) (effects-bump ks c q r)
      ∙ rollback-bump (effects ks c) in
    run-effects checks _ s v (h.0, AllAllowed-rollback ks (effect mark c) h.1)
    ∙ ap (λ d. ok tt (settled s d)) same
    ∙ sym (run-effects checks ks s v (AllAllowed-bump ks c q r bumped))

abbrev raise : ℕ → RefCounts → RefCounts
raise n c = record c { pending = c.pending + n }

raise-zero : (c : RefCounts) → raise 0 c ≡ c
raise-zero c = ground arith

raise-bump : (n : ℕ) (c : RefCounts) → raise n (bump c) ≡ raise (suc n) c
raise-bump n c = ground arith

effects-marks :
    (n : ℕ) (ks : List Call) (c : RefCounts)
    → c.remote ≡ 0
    → effects (replicate n mark ++ ks) c ≡ effects ks (raise n c)
effects-marks zero ks c r = ap (effects ks) (sym (raise-zero c))
effects-marks (suc n) ks c r =
    ap (effects (replicate n mark ++ ks)) (effect-mark c r)
    ∙ effects-marks n ks (bump c) r
    ∙ ap (effects ks) (raise-bump n c)

AllAllowed-marks :
    (n : ℕ) (ks : List Call) (c : RefCounts)
    → c.remote ≡ 0
    → sum c + n < u32_mod
    → AllAllowed ks (raise n c)
    → AllAllowed (replicate n mark ++ ks) c
AllAllowed-marks zero ks c r b h = rw (raise-zero c) at h
AllAllowed-marks (suc n) ks c r b h = (
  omega arith,
  rw (effect-mark c r) (AllAllowed-marks n ks (bump c) r (omega arith) (rw (raise-bump n c) h)),
)

-- Any number of sends of an object with no remote ref may race: the one BR_ACQUIRE that the kernel
-- queues clears all their credits, so that after the matching BR_RELEASE only the local refs are
-- left, and a subscriber sees zero if there are none.
acquire_clears_all :
    (checks : Bool) (n : ℕ) (s : ObjectRefState)
    → IsSound s
    → s.counts.remote ≡ 0
    → sum s.counts + n + 1 < u32_mod
    → run checks (replicate n mark ++ (acquire ∷ release ∷ [])) s
      ≡ ok tt (settled s (record { local = s.counts.local; remote = 0; pending = 0 }))
acquire_clears_all checks n s v r b =
    let c = s.counts in
    let after_marks : AllAllowed (acquire ∷ release ∷ []) (raise n c) =
      (omega arith, (omega arith, tt)) in
    run-effects checks _ s v (AllAllowed-marks n _ c r (omega arith) after_marks)
    ∙ ap (λ d. ok tt (settled s d)) (effects-marks n (acquire ∷ release ∷ []) c r ∙ ground arith)

-- A send that starts while the object has a remote ref takes no credit. If that ref is released
-- and another send takes a credit before the first one fails, the rollback of the first takes the
-- other's credit: all four calls together do what the release alone does, though the second send
-- is in flight.
pub rollback_takes_other_credit :
    (checks : Bool) (s : ObjectRefState)
    → IsSound s
    → s.counts.remote ≡ 1
    → sum s.counts + 1 < u32_mod
    → run checks (mark ∷ release ∷ mark ∷ rollback ∷ []) s ≡ run checks (release ∷ []) s
rollback_takes_other_credit checks s v r b =
    run-effects checks _ s v (ground arith)
    ∙ ap (λ d. ok tt (settled s d)) (ground arith)
    ∙ sym (run-effects checks _ s v (omega arith, tt))
