-- ===== src/ResourcesManager/Pools.antt =====
-- Pools that agree, and the release of all that is held.
use data_lineup.Base.{
  ℕ, String, none, some, [], ◌∷◌, ◌==◌, ==_iff, string_eq, nat_eq, if◌then◌else◌, ◌≡◌, refl, sym,
  ◌∙◌, arith, Bool-cases, inl, inr,
}
use data_lineup.Dict.{
  lookup, has_key, Distinct, lookup-insert, remove-Distinct, lookup-remove, has_key-lookup,
}
use data_lineup.Resources.{ResourceData, ExclusiveResources, release}
use data_lineup.Resources.Invariant.{IsValid}
use data_lineup.ResourcesManager.{
  ResourceContext, ResourcesManager, pool, set_pool, release_context, Held, release_all,
}

-- The same resources available and in use.
abbrev pub SamePool : ExclusiveResources → ExclusiveResources → Type 0
SamePool s t =
    ((h : ℕ) → lookup h s.availables ≡ lookup h t.availables)
    × ((h : ℕ) → lookup h s.used ≡ lookup h t.used)

abbrev pub SamePools : ResourcesManager → ResourcesManager → Type 0
SamePools m n = (t : String) → SamePool (pool t m) (pool t n)

abbrev pub AllValid : ResourcesManager → Type 0
AllValid m = (t : String) → IsValid (pool t m)

pub pool-set_pool :
    (t u : String) (s : ExclusiveResources) (m : ResourcesManager)
    → pool u (set_pool t s m) ≡ (if t == u then s else pool u m)
pool-set_pool t u s m = ground (arith, lookup-insert t u s m.resources)

pub set_pool-AllValid :
    (t : String) (s : ExclusiveResources) (m : ResourcesManager)
    → AllValid m
    → IsValid s
    → AllValid (set_pool t s m)
set_pool-AllValid t s m all v u =
    rw (pool-set_pool t u s m)
      (elim (Bool-cases (t == u)) [ inl e ↦ rw e v | inr e ↦ rw e (all u) ])

pub release-SamePool :
    (r : ResourceData) (s t : ExclusiveResources)
    → Distinct s.used
    → Distinct t.used
    → SamePool s t
    → SamePool (release r s) (release r t)
unfolding release
release-SamePool r s t v w same = (
  λ h. ground (
    arith,
    has_key-lookup r.handle s.used,
    has_key-lookup r.handle t.used,
    same.1 r.handle,
    lookup-insert r.handle h r s.availables,
    lookup-insert r.handle h r t.availables,
    same.0 h,
  ),
  λ h. ground (
    arith,
    has_key-lookup r.handle s.used,
    has_key-lookup r.handle t.used,
    same.1 r.handle,
    lookup-remove r.handle h s.used v,
    lookup-remove r.handle h t.used w,
    same.1 h,
  ),
)

pub SamePools-trans : (m n o : ResourcesManager) → SamePools m n → SamePools n o → SamePools m o
SamePools-trans m n o p q t = (λ h. (p t).0 h ∙ (q t).0 h, λ h. (p t).1 h ∙ (q t).1 h)

abbrev pub Tidy : ResourcesManager → Type 0
Tidy m = (t : String) → Distinct (pool t m).used

-- Contexts whose release is not delayed.
abbrev pub Prompt : Held → Type 0
Prompt [] = Unit
Prompt ((t, c) ∷ held) =
    ((r : ResourceData) × (c.resource ≡ some r) × (c.release_at ≡ none)) × Prompt held

pub release_context-now :
    (t : String) (c : ResourceContext) (r : ResourceData) (m : ResourcesManager)
    → c.resource ≡ some r
    → c.release_at ≡ none
    → release_context t c m ≡ set_pool t (release r (pool t m)) m
unfolding release_context
release_context-now t c r m e f = rw (e, f) refl

pub release-Tidy :
    (r : ResourceData) (s : ExclusiveResources) → Distinct s.used → Distinct (release r s).used
unfolding release
release-Tidy r s d = elim (Bool-cases (has_key r.handle s.used)) [
  | inl e ↦ rw e (remove-Distinct r.handle s.used d)
  | inr e ↦ rw e d
]

pub set_pool-Tidy :
    (t : String) (s : ExclusiveResources) (m : ResourcesManager)
    → Tidy m
    → Distinct s.used
    → Tidy (set_pool t s m)
set_pool-Tidy t s m all v u =
    rw (pool-set_pool t u s m)
      (elim (Bool-cases (t == u)) [ inl e ↦ rw e v | inr e ↦ rw e (all u) ])

pub set_pool-SamePools :
    (t : String) (s s' : ExclusiveResources) (m n : ResourcesManager)
    → SamePool s s'
    → SamePools m n
    → SamePools (set_pool t s m) (set_pool t s' n)
set_pool-SamePools t s s' m n here all u =
    rw (pool-set_pool t u s m, pool-set_pool t u s' n)
      (elim (Bool-cases (t == u)) [ inl e ↦ rw e here | inr e ↦ rw e (all u) ])

pub release_all-SamePools :
    (held : Held) (m n : ResourcesManager)
    → Prompt held
    → Tidy m
    → Tidy n
    → SamePools m n
    → SamePools (release_all held m) (release_all held n)
release_all-SamePools [] m n p v w same = same
release_all-SamePools ((t, c) ∷ held) m n ((r, e, f), p) v w same =
    rw (release_context-now t c r m e f, release_context-now t c r n e f)
      (release_all-SamePools held (set_pool t (release r (pool t m)) m)
        (set_pool t (release r (pool t n)) n) p
        (set_pool-Tidy t (release r (pool t m)) m v (release-Tidy r (pool t m) (v t)))
        (set_pool-Tidy t (release r (pool t n)) n w (release-Tidy r (pool t n) (w t)))
        (set_pool-SamePools t (release r (pool t m)) (release r (pool t n)) m n
          (release-SamePool r (pool t m) (pool t n) (v t) (w t) (same t)) same))

pub unchanged-SamePools :
    (t : String) (m : ResourcesManager) → SamePools (set_pool t (pool t m) m) m
unchanged-SamePools t m u = rw (pool-set_pool t u (pool t m) m) (elim (Bool-cases (t == u)) [
  | inl same ↦ rw (same, sym ((==_iff t u).0 same)) (λ h. refl, λ h. refl)
  | inr other ↦ rw other (λ h. refl, λ h. refl)
])
