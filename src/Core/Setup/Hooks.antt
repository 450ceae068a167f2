-- ===== src/Core/Setup/Hooks.antt =====
-- The members of struct mctp that the application sets for the platform's calls: the clock, with its
-- context, and the context of the allocator. `Platform` answers for what is called through them.
use ps_libmctp_win.Prelude.{ℕ, ◌≡◌, refl, Option, none, some}
use ps_libmctp_win.Core.State.{Trace}

pub record Hooks : Type 0 where
  pub platform_now : Option (ℕ → Trace → ℕ)
  pub platform_now_ctx : ℕ
  pub alloc_ctx : ℕ

-- `mctp_set_now_op`; `none` is a failed assertion, here and below.
unfoldable pub set_now_op : Option (ℕ → Trace → ℕ) → ℕ → Hooks → Option Hooks
set_now_op none ctx hooks = none
set_now_op (some now) ctx hooks =
    some (record hooks { platform_now = some now; platform_now_ctx = ctx })

-- `mctp_now`
unfoldable pub mctp_now : Hooks → Trace → Option ℕ
mctp_now hooks tr = elim hooks.platform_now [
  | none ↦ none
  | some now ↦ some (now hooks.platform_now_ctx tr)
]

-- `mctp_get_alloc_ctx`
unfoldable pub get_alloc_ctx : Hooks → ℕ
get_alloc_ctx hooks = hooks.alloc_ctx

-- `mctp_set_alloc_ctx`
unfoldable pub set_alloc_ctx : ℕ → Hooks → Hooks
set_alloc_ctx ctx hooks = record hooks { alloc_ctx = ctx }

-- The clock that was set is read, with its own context.
mctp_now-set_now_op :
    (now : ℕ → Trace → ℕ) (ctx alloc_ctx : ℕ) (hooks : Hooks) (tr : Trace)
    → (hooks' : Hooks) × (set_now_op (some now) ctx hooks ≡ some hooks')
      × (mctp_now (set_alloc_ctx alloc_ctx hooks') tr ≡ some (now ctx tr))
      × (get_alloc_ctx hooks' ≡ get_alloc_ctx hooks)
unfolding set_now_op mctp_now set_alloc_ctx get_alloc_ctx
mctp_now-set_now_op now ctx alloc_ctx hooks tr =
    (record hooks { platform_now = some now; platform_now_ctx = ctx }, refl, refl, refl)
