-- ===== src/Workbench/Durable/Steps.antt =====
-- Which steps of workbench-context.tsx leave the storage a mirror of the variables, where it has room.
use dotnet_web_api_startpack.Prelude.{
  ℕ, Text, lit, List, [], ◌∷◌, Bool, false, Option, some, or_else, ◌≡◌, refl, ap, ◌∙◌, arith,
  Bool-cases, inl, inr, set_key, text_eq, if◌then◌else◌,
}
use dotnet_web_api_startpack.Types.{AuthMode, neutral}
use dotnet_web_api_startpack.Constants.{StorageName, storage_key, storage_names, empty_variables}
use dotnet_web_api_startpack.Platform.{Platform}
use dotnet_web_api_startpack.Vault.{
  Storage, size, remove_key, is_auth_mode, clear_names, clear_vault_storage,
}
use dotnet_web_api_startpack.Vault.Variables.{VariableName, storage_name}
use dotnet_web_api_startpack.Vault.Mirror.{lookup-write_vault_value}
use dotnet_web_api_startpack.Vault.Clear.{clear_vault_storage-Mirrors}
use dotnet_web_api_startpack.Workbench.State.{
  Workbench, set_auth_mode, mode_text, clear_vault, push_toast,
}
use dotnet_web_api_startpack.Workbench.Durable.{with_limit, lim, IsDurable, put, write-roomy}

mode_key-other :
    (m : VariableName) (k : StorageName)
    → storage_name m ≡ some k
    → text_eq (storage_key StorageName.auth_mode) (storage_key k) ≡ false
unfolding storage_name storage_key text_eq
mode_key-other VariableName.access_token k h = ground arith
mode_key-other m k h = ground arith

-- Writing the mode leaves the entries of the variables alone.
pub set_auth_mode-IsDurable : (mode : AuthMode) → IsDurable (set_auth_mode mode)
unfolding set_auth_mode
set_auth_mode-IsDurable mode w good =
    let t = mode_text mode in
    let room = size (set_key (storage_key StorageName.auth_mode) t w.storage.entries) in
    let written = record w.storage { entries = put StorageName.auth_mode t w.storage.entries } in
    record {
      after = record w { auth_mode = mode; storage = written };
      good = record {
        opened = good.opened;
        mirrors = λ m k named.
            lookup-write_vault_value StorageName.auth_mode t (with_limit room w.storage)
              {storage' = with_limit room written} (storage_key k)
              (write-roomy StorageName.auth_mode t w.storage room good.opened (omega arith))
            ∙ rw (mode_key-other m k named) (good.mirrors m k named);
      };
      room = room;
      reached = λ n h.
          rw (write-roomy StorageName.auth_mode t w.storage n good.opened h, set_auth_mode) refl;
    }

-- What the loop of the clearing leaves.
abbrev pub left_over : List StorageName → List (Text × Text) → List (Text × Text)
left_over [] entries = entries
left_over (k ∷ ks) entries =
    left_over ks (if is_auth_mode k then entries else remove_key (storage_key k) entries)

abbrev pub opened : List (Text × Text) → ℕ → Storage
opened entries n = record { entries = entries; blocked = false; limit = n }

clear_names-opened :
    (ks : List StorageName) (entries : List (Text × Text)) (n : ℕ)
    → clear_names ks (opened entries n) ≡ some (opened (left_over ks entries) n)
unfolding clear_names
clear_names-opened [] entries n = refl
clear_names-opened (k ∷ ks) entries n = elim (Bool-cases (is_auth_mode k)) [
  | inl mode ↦ rw (mode, clear_names) (clear_names-opened ks entries n)
  | inr other ↦
      rw (other, clear_names) (clear_names-opened ks (remove_key (storage_key k) entries) n)
]

-- The page after a clearing that has left a storage.
abbrev cleared_page : ⦃p : Platform⦄ → Storage → Workbench → Workbench
cleared_page ⦃p⦄ storage w =
    push_toast (p.message (lit "vault_cleared") []) (p.message (lit "vault_cleared_description") [])
      neutral (record w { variables = empty_variables; storage = storage })

pub clear_vault-IsDurable : ⦃p : Platform⦄ → IsDurable clear_vault
unfolding clear_vault clear_vault_storage push_toast
clear_vault-IsDurable w good =
    let emptied = opened (left_over storage_names w.storage.entries) in
    let clears : (n : ℕ) → clear_vault_storage (with_limit n w.storage) ≡ some (emptied n) = λ n.
      ap (λ (b : Bool). clear_vault_storage (record w.storage { blocked = b; limit = n }))
        good.opened
      ∙ clear_names-opened storage_names w.storage.entries n in
    record {
      after = cleared_page (emptied 0) w;
      good = record {
        opened = refl;
        mirrors =
            clear_vault_storage-Mirrors (with_limit 0 w.storage) {storage' = emptied 0} (clears 0);
      };
      room = 0;
      reached = λ n h.
          ap (λ (o : Option Storage). cleared_page (or_else o (with_limit n w.storage)) (lim n w))
            (clears n);
    }
