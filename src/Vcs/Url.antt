-- ===== src/Vcs/Url.antt =====
-- The repository's name in an address of any of the forms that git remotes have.
use rwx.Prelude.{
  ℕ, zero, suc, ◌+◌, ◌<◌, Bool, true, false, Option-cases, Bool-cases, [], ◌∷◌, ◌++◌, nat_eq, Bytes,
  bytes_eq, bytes_beq, bytes_beq_iff, codes, contains, has_byte, has_suffix, trim_suffix,
  last_index, drop, length, length-append, take-length-append, ◌≡◌, refl, ap, ◌∙◌, inl, inr, arith,
}
use rwx.Prelude.Cut.{last_index-none, last_index-append, last_index-lt}
use rwx.Vcs.{after_colon, after_slash, repo_name_from_origin_url}

last_index-append_free :
    (c : ℕ) (s t : Bytes) → has_byte c t ≡ false → last_index (s ++ t) c ≡ last_index s c
unfolding last_index
last_index-append_free c [] t h = last_index-none c t h
last_index-append_free c (a ∷ s) t h = ground (arith, last_index-append_free c s t h)

drop-append : (n : ℕ) (s t : Bytes) → n < length s + 1 → drop n (s ++ t) ≡ drop n s ++ t
drop-append zero s t h = refl
drop-append (suc n) [] t h = ground arith
drop-append (suc n) (a ∷ s) t h = drop-append n s t (omega arith)

-- A part behind the last slash survives the cut at a colon.
after_colon-append :
    (p t : Bytes) → has_byte 58 t ≡ false → (q : Bytes) × (after_colon (p ++ t) ≡ q ++ t)
unfolding after_colon
after_colon-append p t h = elim (Option-cases (last_index p 58)) [
  | inl e ↦ (p, ground (arith, e, last_index-append_free 58 p t h))
  | inr (i, e) ↦ elim (Bool-cases (contains (p ++ t) (codes "://"))) [
    | inl f ↦ (p, ground (arith, e, f, last_index-append_free 58 p t h))
    | inr f ↦ (
      drop (i + 1) p,
      ground (
        arith,
        e,
        f,
        last_index-append_free 58 p t h,
        drop-append (i + 1) p t,
        last_index-lt 58 p i e,
      ),
    )
  ]
]

drop-behind : (c : ℕ) (p t : Bytes) → drop (length p + 1) (p ++ (c ∷ t)) ≡ t
drop-behind c [] t = refl
drop-behind c (a ∷ p) t = ground (arith, drop-behind c p t)

after_slash-append : (p t : Bytes) → has_byte 47 t ≡ false → after_slash (p ++ (47 ∷ t)) ≡ t
unfolding after_slash
after_slash-append p t h = ground (arith, last_index-append 47 p t h, drop-behind 47 p t)

after_colon_at :
    (p t : Bytes)
    → has_byte 58 t ≡ false
    → contains (p ++ (58 ∷ t)) (codes "://") ≡ false
    → after_colon (p ++ (58 ∷ t)) ≡ t
unfolding after_colon
after_colon_at p t h c = ground (arith, last_index-append 58 p t h, drop-behind 58 p t)

has_suffix-append : (s p : Bytes) → has_suffix (s ++ p) p ≡ true
unfolding has_suffix bytes_beq
has_suffix-append [] [] = refl
has_suffix-append [] (b ∷ p) = ground (arith, bytes_beq_iff (b ∷ p) (b ∷ p))
has_suffix-append (a ∷ s) p = ground (arith, has_suffix-append s p)

-- An address's last part, with or without `.git`.
abbrev pub with_git : Bool → Bytes → Bytes
with_git true name = name ++ codes ".git"
with_git false name = name

trim_suffix-with_git :
    (git : Bool) (name : Bytes)
    → has_suffix name (codes ".git") ≡ false
    → trim_suffix (with_git git name) (codes ".git") ≡ name
unfolding trim_suffix
trim_suffix-with_git true name h = ground (
  arith,
  has_suffix-append name (codes ".git"),
  length-append name (codes ".git"),
  take-length-append name (codes ".git"),
)
trim_suffix-with_git false name h = ground arith

has_byte-with_git :
    (c : ℕ) (git : Bool) (name : Bytes)
    → has_byte c (codes ".git") ≡ false
    → has_byte c name ≡ false
    → has_byte c (with_git git name) ≡ false
unfolding has_byte
has_byte-with_git c false name d h = h
has_byte-with_git c true [] d h = d
has_byte-with_git c true (a ∷ name) d h = ground (arith, has_byte-with_git c true name d)

-- Of an address whose last part, behind a slash, is a name without slash and colon that does not
-- itself end in `.git`, the repository's name is that name, with `.git` behind it or not and
-- whatever stands in front: a scheme, a user, a port, more colons and slashes.
pub repo_name_from_origin_url-with_git :
    (git : Bool) (p name : Bytes)
    → has_byte 47 name ≡ false
    → has_byte 58 name ≡ false
    → has_suffix name (codes ".git") ≡ false
    → repo_name_from_origin_url (p ++ (47 ∷ with_git git name)) ≡ name
unfolding repo_name_from_origin_url has_byte
repo_name_from_origin_url-with_git git p name slash colon git_end =
    let t = with_git git name in
    let (q, e) = after_colon-append p (47 ∷ t) (has_byte-with_git 58 git name refl colon) in
    ap (λ s. trim_suffix (after_slash s) (codes ".git")) e
    ∙ ap (λ s. trim_suffix s (codes ".git"))
        (after_slash-append q t (has_byte-with_git 47 git name refl slash))
    ∙ trim_suffix-with_git git name git_end

after_slash-none : (t : Bytes) → has_byte 47 t ≡ false → after_slash t ≡ t
unfolding after_slash
after_slash-none t h = ground (arith, last_index-none 47 t h)

-- Of an SSH address without `://` whose last part stands directly behind a colon, the repository's
-- name is likewise this part, with `.git` behind it or not.
pub repo_name_from_origin_url_ssh :
    (git : Bool) (p name : Bytes)
    → has_byte 47 name ≡ false
    → has_byte 58 name ≡ false
    → has_suffix name (codes ".git") ≡ false
    → contains (p ++ (58 ∷ with_git git name)) (codes "://") ≡ false
    → repo_name_from_origin_url (p ++ (58 ∷ with_git git name)) ≡ name
unfolding repo_name_from_origin_url has_byte
repo_name_from_origin_url_ssh git p name slash colon git_end ssh =
    let t = with_git git name in
    ap (λ s. trim_suffix (after_slash s) (codes ".git"))
      (after_colon_at p t (has_byte-with_git 58 git name refl colon) ssh)
    ∙ ap (λ s. trim_suffix s (codes ".git"))
        (after_slash-none t (has_byte-with_git 47 git name refl slash))
    ∙ trim_suffix-with_git git name git_end
