-- ===== src/Config/Tests.antt =====
-- The configuration files on concrete inputs.
use rwx.Prelude.{
  ℕ, none, some, [], ◌∷◌, bytes_eq, bytes_beq, codes, trim_space, is_space, ◌≡◌, refl,
}
use rwx.Prelude.Dict.{get, put}
use rwx.Prelude.FilePath.{join}
use rwx.Prelude.Result.{ok}
use rwx.Config.{FileBackend, Fs, set, memory_set, get_value}
use rwx.Config.FileLaws.{get_value-set}
use rwx.Config.Backend.{memory_backend}
use rwx.Config.Tokens.{DocsToken, get_docs_token, set_docs_token, get_docs_token-set_docs_token}

abbrev a_backend : FileBackend
a_backend = record { primary_directory = codes "/c"; fallback_directories = codes "/old" ∷ [] }

abbrev same_mode : ℕ → ℕ
same_mode mode = mode

-- A value in the fallback directory only.
abbrev old_fs : Fs
old_fs = record {
  files = (codes "/old/t", record { contents = codes "v\n"; mode = 420 }) ∷ [];
  directories = [];
}

abbrev set_fs : Fs
set_fs = record {
  files =
      (codes "/old/t", record { contents = codes "v\n"; mode = 420 })
      ∷ (codes "/c/t", record { contents = codes " w"; mode = 384 })
      ∷ [];
  directories = (codes "/c", 448) ∷ [];
}

get_value-set_example :
    (get_value same_mode none a_backend set_fs (codes "t") ≡ (set_fs, ok (trim_space (codes " w"))))
    × (get set_fs.files (join (codes "/c") (codes "t"))
        ≡ some (record { contents = codes " w"; mode = 384 }))
    × (get set_fs.directories (codes "/c") ≡ some 448)
unfolding set put get join
get_value-set_example =
    get_value-set same_mode none none a_backend old_fs (codes "t") (codes " w") {fs' = set_fs} refl

abbrev migrated_fs : Fs
migrated_fs = record {
  files =
      (codes "/old/t", record { contents = codes "v\n"; mode = 420 })
      ∷ (codes "/c/t", record { contents = codes "v"; mode = 384 })
      ∷ [];
  directories = (codes "/c", 448) ∷ [];
}

abbrev a_docs_token : DocsToken
a_docs_token = record { token = codes "tok"; auth_token = codes "auth" }

get_docs_token-set_docs_token_example :
    get_docs_token memory_backend ((codes "docs_token", codes "tok\nauth") ∷ [])
    ≡ ((codes "docs_token", codes "tok\nauth") ∷ [], ok a_docs_token)
unfolding is_space bytes_beq set_docs_token memory_set put
get_docs_token-set_docs_token_example =
    get_docs_token-set_docs_token memory_backend [] a_docs_token
      {s' = (codes "docs_token", codes "tok\nauth") ∷ []} refl refl
