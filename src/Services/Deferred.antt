-- ===== src/Services/Deferred.antt =====
-- How many rounds it may take until every service is loaded.
use data_lineup.Base.{
  ℕ, zero, suc, Bool, true, false, some, List, [], ◌∷◌, ◌++◌, if◌then◌else◌, ◌≡◌, ◌≢◌, ◌↔◌, refl,
  arith, Option-cases, inl, inr, ◌⊎◌,
}
use data_lineup.Services.{
  ServiceClass, ServicesManager, init, Loading, loaded, missing_service, value_error, load_service,
  load_round, built, raised, load_aliased, same_classes, load_deferred, build,
}

pub Loading-cases :
    (l : Loading)
    → ((s : ServicesManager) × (l ≡ loaded s)) ⊎ ((l ≡ missing_service) ⊎ (l ≡ value_error))
Loading-cases (loaded s) = inl (s, refl)
Loading-cases missing_service = inr (inl refl)
Loading-cases value_error = inr (inr refl)

load_aliased-unbuilt :
    (n : ℕ) (cs : List ServiceClass) (s s' : ServicesManager) → load_aliased n cs s ≢ built s'
unfolding load_aliased
load_aliased-unbuilt zero cs s s' e = absurd (cc e)
load_aliased-unbuilt (suc n) [] s s' e = absurd (cc e)
load_aliased-unbuilt (suc n) (c ∷ cs) s s' e = elim (Loading-cases (load_service c s)) [
  | inl (t, f) ↦ load_aliased-unbuilt n cs t s' (rw (f, load_aliased) at e)
  | inr (inl f) ↦ load_aliased-unbuilt n (cs ++ (c ∷ [])) s s' (rw (f, load_aliased) at e)
  | inr (inr f) ↦ absurd (cc (rw (f, load_aliased) at e))
]

again_unbuilt :
    (n : ℕ) (cs : List ServiceClass) (s s' : ServicesManager) (same : Bool)
    → (if same then raised else load_aliased n cs s) ≢ built s'
again_unbuilt n cs s s' true e = absurd (cc e)
again_unbuilt n cs s s' false e = load_aliased-unbuilt n cs s s' e

deferred-built :
    (n : ℕ) (ds : List ServiceClass) (s s' : ServicesManager)
    → (load_deferred n ds s ≡ built s') ↔ (load_round ds s ≡ some ([], s'))
unfolding load_deferred load_round
deferred-built n [] s s' = (λ e. ground (arith, e), λ e. ground (arith, e))
deferred-built n (d ∷ ds) s s' = elim (Option-cases (load_round (d ∷ ds) s)) [
  | inl f ↦ (λ e. absurd (cc (rw (f, load_deferred) at e)), λ e. absurd (cc (rw f at e)))
  | inr (([], t), f) ↦ (
    λ e. ground (arith, f, rw (f, load_deferred) at e),
    λ e. rw (f, load_deferred) (ground (arith, rw f at e)),
  )
  | inr ((c ∷ cs, t), f) ↦ (
    λ e. absurd (
        again_unbuilt n (c ∷ cs) t s' (same_classes (c ∷ cs) (d ∷ ds))
          (rw (f, load_deferred) at e)),
    λ e. absurd (cc (rw f at e)),
  )
]

-- The manager is built exactly if every service that the first round defers is loaded in the
-- second one, whatever a third round could load.
pub build-two_rounds :
    (n : ℕ) (classes : List ServiceClass) (s : ServicesManager)
    → (build n classes ≡ built s) ↔ (
        (deferred : List ServiceClass) × (first : ServicesManager) × (load_round classes init
          ≡ some (deferred, first))
        × (load_round deferred first ≡ some ([], s)))
unfolding build
build-two_rounds n classes s = elim (Option-cases (load_round classes init)) [
  | inl f ↦ (λ e. absurd (cc (rw (f, build) at e)), λ (ds, t, g, h). absurd (cc (rw f at g)))
  | inr ((ds, t), f) ↦ (
    λ e. (ds, t, f, (deferred-built n ds t s).0 (rw (f, build) at e)),
    λ (ds', t', g, h). rw (g, build) ((deferred-built n ds' t' s).1 h),
  )
]
