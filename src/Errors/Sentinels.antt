-- ===== src/Errors/Sentinels.antt =====
-- What `errors.Is` says after `WrapSentinel`.
use rwx.Prelude.{Bool, true, false, ◌||◌, ◌≡◌, refl, inl, inr, Bool-cases, arith}
use rwx.Errors.{
  Sentinel, Sentinel-discrete, Kind, Target, conn_reset, GoError, is, kind_is, error, mark,
  same_sentinel, sentinel_error,
}

same_sentinel_refl : (s : Sentinel) → same_sentinel s s ≡ true
unfolding same_sentinel
same_sentinel_refl s =
    elim (Sentinel-discrete s s)
      as (λ d. (elim d as (λ _. Bool) [ yes _ ↦ true | no _ ↦ false ]) ≡ true) [
        | yes _ ↦ refl
        | no n ↦ absurd (n refl)
      ]

same_sentinel-eq : (s t : Sentinel) → same_sentinel s t ≡ true → s ≡ t
unfolding same_sentinel
same_sentinel-eq s t h = ground arith

-- where the error matches the sentinel already
is-absorbs :
    (e : GoError) (s : Sentinel) (t : Target)
    → is e (Target.sentinel s) ≡ true
    → is e t || kind_is (Kind.sentinel s) t ≡ is e t
unfolding kind_is
is-absorbs e s (Target.sentinel t) h = elim (Bool-cases (same_sentinel s t)) [
  | inl same ↦ let eq : s ≡ t = same_sentinel-eq s t same in ground arith
  | inr other ↦ ground arith
]
is-absorbs e s conn_reset h = ground arith
is-absorbs e s _ h = ground arith

-- Marking an error with a sentinel keeps its text, makes it match that sentinel, and changes its
-- answer for no other target. Marking it again changes nothing.
pub is-mark :
    (e : GoError) (s : Sentinel) (t : Target)
    → (is (mark e s) t ≡ is e t || is (sentinel_error s) t)
      × (is (mark e s) (Target.sentinel s) ≡ true)
      × (error (mark e s) ≡ error e)
      × (mark (mark e s) s ≡ mark e s)
unfolding mark is error sentinel_error kind_is
is-mark e s t = elim (Bool-cases (is e (Target.sentinel s))) [
  | inl already ↦ ground (arith, is-absorbs e s t already)
  | inr fresh ↦ ground (arith, same_sentinel_refl s)
]
