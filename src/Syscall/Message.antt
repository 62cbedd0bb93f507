-- ===== src/Syscall/Message.antt =====
-- What `sys_ipc_try_send` and `sys_ipc_recv` of kern/syscall.c do to sender and receiver.
use arch.Base.{ℕ, ◌≡◌, refl, ◌≢◌, ◌≤◌, ◌%◌, Bool, true, false, Option, none, some, arith}
use arch.Base.{ap, if◌then◌else◌, ◌==◌, leb, ltb, not, ◌&&◌, ◌||◌, ◌-◌, Bool-cases, inl, inr}
use arch.Kern.{Kern, ok, Ensures}
use arch.Kern.Layout.{utop, pgsize, e_bad_env, e_inval, e_ipc_not_recv, env_runnable}
use arch.Env.Table.{envx, deref}
use arch.Env.Ids.{usable, envid2env-any}
use arch.Syscall.Envs.{cur}
use arch.Syscall.Pages.{bad_perm}
use arch.Syscall.Ipc.{sys_ipc_try_send, deliver, delivered}

-- A send of a value alone (`srcva` at or above UTOP) to an environment that waits for a message: it
-- returns 0; the receiver has the value, the sender's identifier and the permission 0, no longer
-- waits, is runnable, and will see its own system call return 0; no other environment changes.
pub sys_ipc_try_send_value :
    (k : Kern) (envid value srcva perm c : ℕ)
    → envid ≢ 0
    → k.curenv ≡ some c
    → usable k 0 false envid ≡ true
    → (k.envs (envx envid)).env_ipc_recving ≡ true
    → utop ≤ srcva
    → Ensures
        (λ r k'.
          let v = k'.envs (envx envid) in
          (r ≡ 0)
          × (v.env_ipc_value ≡ value)
          × (v.env_ipc_from ≡ (k.envs c).env_id)
          × (v.env_ipc_perm ≡ 0)
          × (v.env_ipc_recving ≡ false)
          × (v.env_status ≡ env_runnable)
          × (v.env_tf.tf_regs.reg_eax ≡ 0)
          × ((i : ℕ) → i ≢ envx envid → k'.envs i ≡ k.envs i)
          × (k'.mem ≡ k.mem))
        (sys_ipc_try_send envid value srcva perm k)
unfolding sys_ipc_try_send deref deliver cur delivered
sys_ipc_try_send_value k envid value srcva perm c ne now good waits above =
    simp (envid2env-any k envid ne, good, waits, high, now)
      (
        refl,
        ground arith,
        ground arith,
        ground arith,
        ground arith,
        ground arith,
        ground arith,
        λ i off. ground arith,
        refl,
      )
  where
    high : leb utop srcva ≡ true
    high = ground arith

-- An address below UTOP that is not page-aligned, or that comes with a bad permission.
abbrev pub bad_args : (srcva perm : ℕ) → Bool
bad_args srcva perm = ltb srcva utop && (not (srcva % pgsize == 0) || bad_perm perm)

-- The refusals of `sys_ipc_try_send` that come before any page is looked at, in their order.
abbrev pub refusal_used : Kern → (envid srcva perm : ℕ) → Option ℕ
refusal_used k envid srcva perm =
    if not (k.envs (envx envid)).env_ipc_recving
    then some e_ipc_not_recv
    else if bad_args srcva perm
    then some e_inval
    else none

abbrev pub refusal : Kern → (envid srcva perm : ℕ) → Option ℕ
refusal k envid srcva perm =
    if usable k 0 false envid then refusal_used k envid srcva perm else some e_bad_env

bad_args-cases :
    (srcva perm r : ℕ)
    → (if bad_args srcva perm then some e_inval else none) ≡ some r
    → (bad_args srcva perm ≡ true) × (e_inval ≡ r)
bad_args-cases srcva perm r h = ground (arith, h)

refused-low : (a : ℕ) (b : Bool) → (ltb a utop && b) ≡ true → (leb utop a ≡ false) × (b ≡ true)
refused-low a b h = ground (arith, h)

aligned : (a : ℕ) → (a == a - a % pgsize) ≡ (a % pgsize == 0)
aligned a = ground arith

-- `sys_ipc_try_send` to an identifier other than 0 refuses a receiver that is not in use with
-- -E_BAD_ENV, one that does not wait for a message with -E_IPC_NOT_RECV, and an address below UTOP
-- that is not page-aligned or that comes with a bad permission with -E_INVAL, in this order of
-- precedence, and then changes nothing.
pub sys_ipc_try_send_refused :
    (k : Kern) (envid value srcva perm r : ℕ)
    → envid ≢ 0
    → refusal k envid srcva perm ≡ some r
    → sys_ipc_try_send envid value srcva perm k ≡ ok r k
unfolding sys_ipc_try_send deref
sys_ipc_try_send_refused k envid value srcva perm r ne h =
    elim (Bool-cases (usable k 0 false envid)) [
      | inr bad ↦
          let e : some e_bad_env ≡ some r = rw bad at h in
          simp (envid2env-any k envid ne, bad) (ap (λ q. ok q k) (cc e))
      | inl good ↦
          let h1 : refusal_used k envid srcva perm ≡ some r = rw good at h in
          elim (Bool-cases (k.envs (envx envid)).env_ipc_recving) [
            | inr idle ↦
                let e : some e_ipc_not_recv ≡ some r = rw idle at h1 in
                simp (envid2env-any k envid ne, good, idle) (ap (λ q. ok q k) (cc e))
            | inl waits ↦
                let h2 : (if bad_args srcva perm then some e_inval else none) ≡ some r =
                  rw waits at h1 in
                let (wrong, e) = bad_args-cases srcva perm r h2 in
                let (below, args) = refused-low srcva _ wrong in
                simp (envid2env-any k envid ne, good, waits, below, aligned srcva, args)
                  (ap (λ q. ok q k) e)
          ]
    ]
