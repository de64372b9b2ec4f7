-- ===== src/Config/Tokens.antt =====
-- The access token and the documentation token on top of a configuration backend
-- (internal/accesstoken/accesstoken.go, internal/docstoken/docstoken.go).
use rwx.Prelude.{
  ℕ, ◌+◌, Bool, true, not, ◌||◌, ◌&&◌, none, some, [], ◌∷◌, ◌++◌, ◌==◌, Bytes, bytes_eq, bytes_beq,
  nat_eq, codes, index, has_prefix, take, drop, length, take-length-append, trim_space, trim_left,
  trim_right, is_space, all, ◌≡◌, refl, ap, append_assoc, ◌∙◌, ◌⊎◌, inl, inr, arith,
}
use rwx.Prelude.Result.{Result, ok, err}
use rwx.Config.Backend.{Backend}
use rwx.Config.Trim.{trim_space-clean}

pub record DocsToken : Type 0 where
  pub token : Bytes
  pub auth_token : Bytes

abbrev docs_token_filename : Bytes
docs_token_filename = codes "docs_token"

abbrev access_token_filename : Bytes
access_token_filename = codes "accesstoken"

-- strings.SplitN(raw, "\n", 2), for a text that is not empty
unfoldable pub split_docs_token : Bytes → DocsToken
unfolding index
split_docs_token [] = record { token = []; auth_token = [] }
split_docs_token (c ∷ raw) = elim (index (c ∷ raw) (10 ∷ [])) [
  | none ↦ record { token = c ∷ raw; auth_token = [] }
  | some i ↦ record { token = take i (c ∷ raw); auth_token = drop (i + 1) (c ∷ raw) }
]

-- A token without white space.
abbrev pub clean : Bytes → Bool
clean s = all (λ c. not (is_space c)) s

index-newline : (s t : Bytes) → clean s ≡ true → index (s ++ (10 ∷ t)) (10 ∷ []) ≡ some (length s)
unfolding index has_prefix is_space
index-newline [] t h = ground arith
index-newline (a ∷ s) t h = ground (arith, h, index-newline s t)

index-clean : (s : Bytes) → clean s ≡ true → index s (10 ∷ []) ≡ none
unfolding index has_prefix is_space
index-clean [] h = refl
index-clean (a ∷ s) h = ground (arith, h, index-clean s)

drop-newline : (s t : Bytes) → drop (length s + 1) (s ++ (10 ∷ t)) ≡ t
drop-newline [] t = refl
drop-newline (a ∷ s) t = ground (arith, drop-newline s t)

split_docs_token_whole :
    (token auth : Bytes)
    → clean token ≡ true
    → split_docs_token (token ++ (10 ∷ auth)) ≡ record { token = token; auth_token = auth }
unfolding split_docs_token
split_docs_token_whole [] auth h = ground (arith, index-newline [] auth)
split_docs_token_whole (a ∷ token) auth h = ground (
  arith,
  h,
  index-newline (a ∷ token) auth,
  drop-newline (a ∷ token) auth,
  take-length-append (a ∷ token) (10 ∷ auth),
)

trim_right-last :
    (s t : Bytes) (b : ℕ)
    → trim_right is_space (b ∷ t) ≡ b ∷ t
    → trim_right is_space (s ++ (b ∷ t)) ≡ s ++ (b ∷ t)
unfolding trim_right
trim_right-last [] t b h = h
trim_right-last (a ∷ []) t b h = ground (arith, h)
trim_right-last (a ∷ c ∷ s) t b h = ground (arith, trim_right-last (c ∷ s) t b h)

trim_right-newline : (s : Bytes) → clean s ≡ true → trim_right is_space (s ++ (10 ∷ [])) ≡ s
unfolding trim_right is_space
trim_right-newline [] h = ground arith
trim_right-newline (a ∷ s) h = ground (arith, h, trim_right-newline s)

trim_right-kept : (s : Bytes) → clean s ≡ true → trim_right is_space s ≡ s
unfolding trim_right
trim_right-kept [] h = refl
trim_right-kept (a ∷ s) h = ground (arith, h, trim_right-kept s)

trimmed_newline : split_docs_token (trim_space (10 ∷ [])) ≡ record { token = []; auth_token = [] }
unfolding split_docs_token trim_space trim_left trim_right is_space
trimmed_newline = refl

-- The tokens that read back: without white space, and an authentication token only with a token.
abbrev pub is_storable : DocsToken → Bool
unfolding bytes_beq
is_storable dt =
    clean dt.token && clean dt.auth_token && (not (dt.token == []) || dt.auth_token == [])

-- Trimming takes the newline where nothing stands behind it, and nothing else.
trim_space_token :
    (a : ℕ) (token auth : Bytes)
    → clean (a ∷ token) ≡ true
    → clean auth ≡ true
    → trim_space ((a ∷ token) ++ (10 ∷ auth))
      ≡ (elim auth [ [] ↦ a ∷ token | c ∷ rest ↦ (a ∷ token) ++ (10 ∷ c ∷ rest) ])
unfolding trim_space trim_left
trim_space_token a token [] h k = ground (arith, h, trim_right-newline (a ∷ token) h)
trim_space_token a token (c ∷ rest) h k = ground (
  arith,
  h,
  trim_right-last ((a ∷ token) ++ (10 ∷ [])) rest c (trim_right-kept (c ∷ rest) k),
  append_assoc token (10 ∷ []) (c ∷ rest),
)

split_docs_token_parts :
    (token auth : Bytes)
    → is_storable (record { token = token; auth_token = auth }) ≡ true
    → split_docs_token (trim_space (token ++ (10 ∷ auth)))
      ≡ record { token = token; auth_token = auth }
unfolding split_docs_token bytes_beq
split_docs_token_parts [] [] h = trimmed_newline
split_docs_token_parts [] (c ∷ auth) h = ground (arith, h)
split_docs_token_parts (a ∷ token) [] h =
    ground (arith, h, trim_space_token a token [], index-clean (a ∷ token))
split_docs_token_parts (a ∷ token) (c ∷ auth) h =
    ap split_docs_token
      (trim_space_token a token (c ∷ auth) (ground (arith, h)) (ground (arith, h)))
    ∙ split_docs_token_whole (a ∷ token) (c ∷ auth) (ground (arith, h))

clean_token : (dt : DocsToken) → is_storable dt ≡ true → clean dt.token ≡ true
unfolding bytes_beq
clean_token dt h = ground (arith, h)

split_docs_token_read :
    (dt : DocsToken) (value : Bytes)
    → is_storable dt ≡ true
    → (value ≡ dt.token ++ (10 ∷ dt.auth_token))
      ⊎ (value ≡ trim_space (dt.token ++ (10 ∷ dt.auth_token)))
    → split_docs_token value ≡ dt
split_docs_token_read dt value h (inl e) =
    ap split_docs_token e ∙ split_docs_token_whole dt.token dt.auth_token (clean_token dt h)
split_docs_token_read dt value h (inr e) =
    ap split_docs_token e ∙ split_docs_token_parts dt.token dt.auth_token h

module _ {S E : Type 0} (backend : Backend S E) where
  -- `docstoken.FileBackend`
  unfoldable pub get_docs_token : S → S × Result E DocsToken
  unfolding split_docs_token
  get_docs_token s =
      let (s', raw) = backend.get_from_backend s docs_token_filename in
      elim raw [ err e ↦ (s', err e) | ok value ↦ (s', ok (split_docs_token value)) ]

  unfoldable pub set_docs_token : S → DocsToken → S × Result E (Unit {0})
  set_docs_token s dt =
      backend.set_in_backend s docs_token_filename (dt.token ++ (10 ∷ dt.auth_token))

  -- `accesstoken.FileBackend` behind `accesstoken.Get` and `Set`
  unfoldable pub get_access_token : S → Bytes → S × Result E Bytes
  get_access_token s [] = backend.get_from_backend s access_token_filename
  get_access_token s (c ∷ provided) = (s, ok (c ∷ provided))

  unfoldable pub set_access_token : S → Bytes → S × Result E (Unit {0})
  set_access_token s token = backend.set_in_backend s access_token_filename token

  -- On any backend, the documentation token that was stored is read back whole, both parts, for
  -- parts without white space and where an authentication token comes with a token.
  pub get_docs_token-set_docs_token :
      (s : S) (dt : DocsToken) {s' : S}
      → is_storable dt ≡ true
      → set_docs_token s dt ≡ (s', ok tt)
      → get_docs_token s' ≡ (s', ok dt)
  unfolding get_docs_token set_docs_token
  get_docs_token-set_docs_token s dt {s'} h k =
      let raw = dt.token ++ (10 ∷ dt.auth_token) in
      let read = split_docs_token_read dt (backend.norm raw) h (backend.norm_or_same raw) in
      let got = backend.get-set s s' docs_token_filename raw k in ground (arith, read, got)

  -- On any backend, an access token that is given on the command line is used in place of the stored
  -- one; without one, the stored token is read back as it was set, for a token without white space.
  pub get_access_token-set_access_token :
      (s : S) (token provided : Bytes) {s' : S}
      → clean token ≡ true
      → set_access_token s token ≡ (s', ok tt)
      → get_access_token s' provided ≡ (s', ok (elim provided [ [] ↦ token | c ∷ rest ↦ c ∷ rest ]))
  unfolding get_access_token set_access_token
  get_access_token-set_access_token s token [] {s'} h k = elim (backend.norm_or_same token) [
    | inl e ↦ ground (arith, backend.get-set s s' access_token_filename token k, e)
    | inr e ↦
        ground
          (arith, backend.get-set s s' access_token_filename token k, e, trim_space-clean token h)
  ]
  get_access_token-set_access_token s token (c ∷ provided) h k = refl
