-- ===== src/Workbench/Durable.antt =====
-- What the storage of the page keeps, if it has room enough: the steps of workbench-context.tsx after which
-- the session storage still holds what the variables hold.
pub mod Steps
pub mod Responses
pub mod Runs
use dotnet_web_api_startpack.Prelude.{
  ℕ, suc, ltb, ◌≤◌, Text, lit, List, [], ◌∷◌, Bool, true, false, Option, none, some, or_else, ◌≡◌,
  refl, sym, ap, ◌∙◌, subst, arith, Bool-cases, Option-cases, inl, inr, set_key, leb, if◌then◌else◌,
}
use dotnet_web_api_startpack.Types.{WorkbenchVariables}
use dotnet_web_api_startpack.Constants.{StorageName, storage_key}
use dotnet_web_api_startpack.Template.{is_empty}
use dotnet_web_api_startpack.Vault.{Storage, size, remove_key, write_vault_value}
use dotnet_web_api_startpack.Vault.Variables.{VariableName, storage_name, with_variable}
use dotnet_web_api_startpack.Vault.Mirror.{
  Mirrors, with_variable-Mirrors, with_variable-Mirrors_unnamed,
}
use dotnet_web_api_startpack.Workbench.State.{Workbench, set_variable, try_write, persist}

-- The page with a storage of another limit.
abbrev pub with_limit : ℕ → Storage → Storage
with_limit n storage = record storage { limit = n }

abbrev pub lim : ℕ → Workbench → Workbench
lim n w = record w { storage = with_limit n w.storage }

-- The storage can be used and mirrors the variables.
pub record IsMirrored (w : Workbench) : Type 0 where
  pub opened : w.storage.blocked ≡ false
  pub mirrors : Mirrors w.variables w.storage

-- With room enough, the step leads to the same page whatever the limit is, and to one that is mirrored.
pub record Lasts (f : Workbench → Workbench) (w : Workbench) : Type 0 where
  pub after : Workbench
  pub good : IsMirrored after
  pub room : ℕ
  pub reached : (n : ℕ) → room ≤ n → f (lim n w) ≡ lim n after

abbrev pub IsDurable : (Workbench → Workbench) → Type 0
IsDurable f = (w : Workbench) → IsMirrored w → Lasts f w

abbrev pub larger : ℕ → ℕ → ℕ
larger a b = if ltb a b then b else a

pub same-IsDurable : IsDurable (λ w. w)
same-IsDurable w g = record { after = w; good = g; room = 0; reached = λ n h. refl }

pub compose-Lasts :
    (f g : Workbench → Workbench) (w : Workbench) → Lasts f w → IsDurable g → Lasts (λ x. g (f x)) w
compose-Lasts f g w first second =
    let rest = second first.after first.good in
    record {
      after = rest.after;
      good = rest.good;
      room = larger first.room rest.room;
      reached = λ n h. ap g (first.reached n (ground arith)) ∙ rest.reached n (ground arith);
    }

pub compose-IsDurable :
    (f g : Workbench → Workbench) → IsDurable f → IsDurable g → IsDurable (λ x. g (f x))
compose-IsDurable f g first second w good = compose-Lasts f g w (first w good) second

pub agree-Lasts :
    (f g : Workbench → Workbench) (w : Workbench)
    → ((n : ℕ) → f (lim n w) ≡ g (lim n w))
    → Lasts g w
    → Lasts f w
agree-Lasts f g w same l = record {
  after = l.after;
  good = l.good;
  room = l.room;
  reached = λ n h. same n ∙ l.reached n h;
}

-- What a write leaves where there is room for it.
abbrev pub put : StorageName → Text → List (Text × Text) → List (Text × Text)
put k t entries =
    if is_empty t then remove_key (storage_key k) entries else set_key (storage_key k) t entries

pub write-roomy :
    (k : StorageName) (t : Text) (storage : Storage) (n : ℕ)
    → storage.blocked ≡ false
    → size (set_key (storage_key k) t storage.entries) ≤ n
    → write_vault_value k t (with_limit n storage)
      ≡ some (with_limit n (record storage { entries = put k t storage.entries }))
unfolding write_vault_value
write-roomy k t storage n opened fits = ground arith

pub set_variable-IsDurable : (m : VariableName) (t : Text) → IsDurable (set_variable m t)
unfolding set_variable
set_variable-IsDurable m t w good = elim (Option-cases (storage_name m)) [
  | inl unnamed ↦ record {
    after = record w { variables = with_variable m t w.variables };
    good = record {
      opened = good.opened;
      mirrors = with_variable-Mirrors_unnamed w.variables w.storage m t unnamed good.mirrors;
    };
    room = 0;
    reached = λ n h. rw (unnamed, set_variable) refl;
  }
  | inr (k, named) ↦
      let room = size (set_key (storage_key k) t w.storage.entries) in
      let written = record w.storage { entries = put k t w.storage.entries } in
      record {
        after = record w { variables = with_variable m t w.variables; storage = written };
        good = record {
          opened = good.opened;
          mirrors =
              with_variable-Mirrors w.variables (with_limit room w.storage)
                {storage' = with_limit room written} m k t named good.mirrors
                (write-roomy k t w.storage room good.opened (omega arith));
        };
        room = room;
        reached = λ n h. rw (named, write-roomy k t w.storage n good.opened h, set_variable) refl;
      }
]

-- A step that neither reads the storage nor changes it or the variables.
pub aside-Lasts :
    (f : Workbench → Workbench) (w : Workbench)
    → IsMirrored w
    → ((n : ℕ) → f (lim n w) ≡ lim n (f w))
    → (f w).variables ≡ w.variables
    → (f w).storage ≡ w.storage
    → Lasts f w
aside-Lasts f w good same v s = record {
  after = f w;
  good = record {
    opened = ap (λ (x : Storage). x.blocked) s ∙ good.opened;
    mirrors =
        subst (λ (x : Storage). Mirrors (f w).variables x) (sym s)
          (subst (λ (x : WorkbenchVariables). Mirrors x w.storage) (sym v) good.mirrors);
  };
  room = 0;
  reached = λ n h. same n;
}
