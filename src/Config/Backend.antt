-- ===== src/Config/Backend.antt =====
-- The interface of a configuration backend (internal/config/backend.go), with what its clients rely
-- on, and the file and the memory backend behind it.
use rwx.Prelude.{ℕ, Option, Bytes, bytes_eq, trim_space, ◌≡◌, refl, ◌⊎◌, inl, inr, arith}
use rwx.Prelude.Dict.{Dict, get-put_self}
use rwx.Prelude.Result.{Result, ok}
use rwx.Config.{FileBackend, Fs, SetStep, ConfigError, set, get_value, memory_get, memory_set}
use rwx.Config.FileLaws.{get_value-set}

-- `norm` is what a value reads as when it was set.
pub record Backend (S E : Type 0) : Type 0 where
  pub get_from_backend : S → Bytes → S × Result E Bytes
  pub set_in_backend : S → Bytes → Bytes → S × Result E (Unit {0})
  pub norm : Bytes → Bytes
  pub norm_or_same : (v : Bytes) → (norm v ≡ v) ⊎ (norm v ≡ trim_space v)
  pub get-set :
      (s s' : S) (filename v : Bytes)
      → set_in_backend s filename v ≡ (s', ok tt)
      → get_from_backend s' filename ≡ (s', ok (norm v))

-- `refused` and `r` are the steps that fail in a `Set` and in the migration of a `Get`.
abbrev pub file_backend :
    (ℕ → ℕ) → Option SetStep → Option SetStep → FileBackend → Backend Fs ConfigError
file_backend umask refused r f = record {
  get_from_backend = λ fs filename. get_value umask r f fs filename;
  set_in_backend = λ fs filename v. set umask refused f fs filename v;
  norm = trim_space;
  norm_or_same = λ v. inr refl;
  get-set = λ fs fs' filename v h. (get_value-set umask refused r f fs filename v h).0;
}

pub memory_get-memory_set :
    (m : Dict Bytes Bytes) (filename v : Bytes) → memory_get (memory_set m filename v) filename ≡ v
unfolding memory_get memory_set
memory_get-memory_set m filename v = ground (arith, get-put_self m filename v)

pub memory_get-set :
    (m m' : Dict Bytes Bytes) (filename v : Bytes)
    → ◌≡◌ {A = Dict Bytes Bytes × Result ConfigError (Unit {0})}
        (memory_set m filename v, ok tt)
        (m', ok tt)
    → ◌≡◌ {A = Dict Bytes Bytes × Result ConfigError Bytes}
        (m', ok (memory_get m' filename))
        (m', ok v)
memory_get-set m m' filename v h = ground (arith, h, memory_get-memory_set m filename v)

abbrev pub memory_backend : Backend (Dict Bytes Bytes) ConfigError
memory_backend = record {
  get_from_backend = λ m filename. (m, ok (memory_get m filename));
  set_in_backend = λ m filename v. (memory_set m filename v, ok tt);
  norm = λ v. v;
  norm_or_same = λ v. inl refl;
  get-set = memory_get-set;
}
