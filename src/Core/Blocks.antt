-- ===== src/Core/Blocks.antt =====
-- The message blocks of src/core.c, which `__mctp_msg_alloc` hands out and `__mctp_msg_free` takes
-- back: those in a trace against those that an instance holds.
pub mod Neutral
pub mod Queue
pub mod Sends
pub mod Responses
pub mod Contexts
pub mod Handles
pub mod Receives
pub mod Cleanup
pub mod Enable
pub mod Calls
mod Tests
use ps_libmctp_win.Prelude.{
  ℕ, zero, suc, Bool-cases, ◌+◌, ◌≡◌, ◌⊎◌, inl, inr, ◌∙◌, refl, subst, sym, Bool, true, false,
  Option, none, some, List, [], ◌∷◌, set, take, ◌<◌, get_elem?, Option-cases, arith, if◌then◌else◌,
}
use ps_libmctp_win.Core.State.{
  MsgCtx, Bus, Mctp, World, Trace, Outcome, done, fault, spins, M, ◌>>=◌, bind-done, get_bus,
  get_bus-bind, require, allocated, freed, Event, alloc_failed, captured, transmitted, started,
  delivered, control_delivered,
}

-- The blocks that a trace allocates, and those that it releases.
abbrev pub allocs : Trace → ℕ
allocs [] = 0
allocs (allocated n ∷ tr) = suc (allocs tr)
allocs (_ ∷ tr) = allocs tr

abbrev pub frees : Trace → ℕ
frees [] = 0
frees (freed ∷ tr) = suc (frees tr)
frees (_ ∷ tr) = frees tr

abbrev pub one : Option (List ℕ) → ℕ
one none = 0
one (some block) = 1

-- The blocks in the reassembly contexts, and the messages on busses.
abbrev pub ctx_blocks : List MsgCtx → ℕ
ctx_blocks [] = 0
ctx_blocks (c ∷ cs) = one c.buf + ctx_blocks cs

abbrev pub bus_blocks : List Bus → ℕ
bus_blocks [] = 0
bus_blocks (b ∷ bs) = one b.tx_msg + bus_blocks bs

-- What an instance holds: a bus that is not in use does not count.
abbrev pub held : Mctp → ℕ
held m = bus_blocks (take m.n_busses m.busses) + ctx_blocks m.msg_ctxs

-- Each block that was allocated has been released or is held, but for `k` that the code at hand has.
abbrev pub Owes : ℕ → World → Type 0
Owes k w = frees w.trace + held w.mctp + k ≡ allocs w.trace

-- Nothing is owed, with `n` busses in use.
abbrev pub Settled : ℕ → World → Type 0
Settled n w = (w.mctp.n_busses ≡ n) × Owes 0 w

-- What a transmission leaves alone: the reassembly contexts and the number of busses in use.
abbrev pub Frame : Type 0
Frame = List MsgCtx × ℕ

abbrev pub frame : World → Frame
frame w = (w.mctp.msg_ctxs, w.mctp.n_busses)

abbrev pub OwesWith : ℕ → Frame → World → Type 0
OwesWith k fr w = (frame w ≡ fr) × Owes k w

abbrev Holds : {A : Type 0} → (A → World → Type 0) → Outcome A → Type 0
Holds post (done a w) = post a w
Holds post fault = Unit
Holds post spins = Unit

-- What holds of an outcome that is a return.
pub record After {A : Type 0} (post : A → World → Type 0) (o : Outcome A) : Type 0 where
  pub holds : Holds post o

module _ {A : Type 0} where
  pub After-done :
      {post : A → World → Type 0} (a : A) (w : World) → post a w → After post (done a w)
  After-done a w h = record { holds = h }

  pub After-fault : {post : A → World → Type 0} → After post fault
  After-fault = record { holds = tt }

  pub After-spins : {post : A → World → Type 0} → After post spins
  After-spins = record { holds = tt }

  pub of_After :
      {post : A → World → Type 0} {o : Outcome A} {a : A} {w : World}
      → After post o
      → o ≡ done a w
      → post a w
  of_After {post} h e = (subst (After post) e h).holds

  Holds-map :
      (o : Outcome A) {mid post : A → World → Type 0}
      → ((a : A) (w : World) → mid a w → post a w)
      → Holds mid o
      → Holds post o
  Holds-map (done a w) f h = f a w h
  Holds-map fault f h = tt
  Holds-map spins f h = tt

  pub After-map :
      {o : Outcome A} {mid post : A → World → Type 0}
      → ((a : A) (w : World) → mid a w → post a w)
      → After mid o
      → After post o
  After-map {o} f h = record { holds = Holds-map o f h.holds }

  Outcome-cases :
      (o : Outcome A) → ((a : A) × (w : World) × (o ≡ done a w)) ⊎ ((o ≡ fault) ⊎ (o ≡ spins))
  Outcome-cases (done a w) = inl (a, w, refl)
  Outcome-cases fault = inr (inl refl)
  Outcome-cases spins = inr (inr refl)

  pub After-by :
      {post : A → World → Type 0} {o o' : Outcome A} → o ≡ o' → After post o' → After post o
  After-by {post} e h = subst (After post) (sym e) h

  pub After-if :
      {post : A → World → Type 0} (b : Bool) (m n : M A) (w : World)
      → (b ≡ true → After post (m w))
      → (b ≡ false → After post (n w))
      → After post ((if b then m else n) w)
  After-if b m n w on off = elim (Bool-cases b) [ inl e ↦ rw e (on e) | inr e ↦ rw e (off e) ]

  pub After-get_bus :
      {post : A → World → Type 0} (i : ℕ) (f : Bus → M A) (w : World)
      → ((bus : Bus) → get_elem? w.mctp.busses i ≡ some bus → After post (f bus w))
      → After post ((get_bus i >>= f) w)
  After-get_bus i f w next = elim (Option-cases (get_elem? w.mctp.busses i)) [
    | inl gone ↦ rw (◌>>=◌, get_bus, gone) After-fault
    | inr (bus, at) ↦ rw (get_bus-bind i f w at) (next bus at)
  ]

  pub After-require :
      {post : A → World → Type 0} (b : Bool) (f : Unit {0} → M A) (w : World)
      → After post (f tt w)
      → After post ((require b >>= f) w)
  After-require true f w h = h
  After-require false f w h = After-fault

module _ {A B : Type 0} where
  pub After-bind :
      {mid : A → World → Type 0} {post : B → World → Type 0} (m : M A) (f : A → M B) (w : World)
      → After mid (m w)
      → ((a : A) (w' : World) → mid a w' → After post (f a w'))
      → After post ((m >>= f) w)
  After-bind m f w h next = elim (Outcome-cases (m w)) [
    | inl (a, w', e) ↦ rw (bind-done m f w e) (next a w' (of_After h e))
    | inr (inl e) ↦ rw (◌>>=◌, e) After-fault
    | inr (inr e) ↦ rw (◌>>=◌, e) After-spins
  ]

-- Writing a bus that is in use changes what is held by the messages of the two.
pub bus_blocks-set :
    (n : ℕ) (bs : List Bus) (i : ℕ) (b' : Bus) {b : Bus}
    → i < n
    → get_elem? bs i ≡ some b
    → bus_blocks (take n (set bs i b')) + one b.tx_msg ≡ bus_blocks (take n bs) + one b'.tx_msg
bus_blocks-set n [] i b' l e = cc
bus_blocks-set zero (x ∷ bs) i b' l e = absurd (omega arith)
bus_blocks-set (suc n) (x ∷ bs) zero b' l e = ground arith
bus_blocks-set (suc n) (x ∷ bs) (suc i) b' l e =
    omega (arith, bus_blocks-set n bs i b' (omega arith) e)

-- Writing a bus with the message that it had.
pub bus_blocks-same :
    (n : ℕ) (bs : List Bus) (i : ℕ) (b' : Bus) {b : Bus}
    → get_elem? bs i ≡ some b
    → one b'.tx_msg ≡ one b.tx_msg
    → bus_blocks (take n (set bs i b')) ≡ bus_blocks (take n bs)
bus_blocks-same n [] i b' e h = cc
bus_blocks-same zero (x ∷ bs) i b' e h = refl
bus_blocks-same (suc n) (x ∷ bs) zero b' e h = ground arith
bus_blocks-same (suc n) (x ∷ bs) (suc i) b' e h = omega (arith, bus_blocks-same n bs i b' e h)

pub ctx_blocks-set :
    (cs : List MsgCtx) (k : ℕ) (c' : MsgCtx) {c : MsgCtx}
    → get_elem? cs k ≡ some c
    → ctx_blocks (set cs k c') + one c.buf ≡ ctx_blocks cs + one c'.buf
ctx_blocks-set [] k c' e = cc
ctx_blocks-set (x ∷ cs) zero c' e = ground arith
ctx_blocks-set (x ∷ cs) (suc k) c' e = omega (arith, ctx_blocks-set cs k c' e)
