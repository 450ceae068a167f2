-- ===== src/Core/Tags.antt =====
-- Request tags in src/core.c: mctp_alloc_tag, mctp_dealloc_tag and mctp_message_tx_request.
pub mod Fresh
pub mod Alloc
use ps_libmctp_win.Prelude.{
  ℕ, zero, suc, ◌+◌, ◌%◌, ◌^◌, Bool, true, Option, none, some, List, [], ◌∷◌, set, bit_and, bit_or,
  add_size, ltb, ◌==◌, not, ◌&&◌, ◌||◌, if◌then◌else◌,
}
use ps_libmctp_win.Core.State.{
  Rc, success, ebusy, ReqTag, Mctp, Platform, M, ◌>>=◌, ◌>>◌, pure, gets, modify, emit, require,
  get_trace, get_bus, freed, tag_timeout,
}
use ps_libmctp_win.Core.Transmit.{find_bus_for_eid, message_tx_alloced}

-- The entry for the endpoint pair `local`, `remote` with this tag.
abbrev pub matches : ℕ → ℕ → ℕ → ReqTag → Bool
matches local remote tag r = r.local == local && r.remote == remote && r.tag == tag

abbrev pub empty_tag : ReqTag
empty_tag = record { local = 0; remote = 0; tag = 0; expiry = 0 }

-- The loop of `mctp_dealloc_tag`: the first entry that matches is cleared.
unfoldable pub clear_tag : ℕ → ℕ → ℕ → List ReqTag → List ReqTag
clear_tag local remote tag [] = []
clear_tag local remote tag (r ∷ rs) =
    if matches local remote tag r then empty_tag ∷ rs else r ∷ clear_tag local remote tag rs

-- `mctp_dealloc_tag`
unfoldable pub dealloc_tag : ℕ → ℕ → ℕ → M (Unit {0})
dealloc_tag local remote tag =
    if local == 0
    then pure tt
    else modify (λ m. record m { req_tags = clear_tag local remote tag m.req_tags })

-- A slot that is unused or has expired.
abbrev pub is_spare : ℕ → ReqTag → Bool
is_spare now r = r.local == 0 || ltb r.expiry now

-- The first loop of `mctp_alloc_tag`, from slot `i` on: the last spare slot, and a bit for each tag
-- that the pair uses.
unfoldable pub scan_tags : ℕ → ℕ → ℕ → ℕ → Option ℕ → ℕ → List ReqTag → Option ℕ × ℕ
scan_tags now local remote i spare used [] = (spare, used)
scan_tags now local remote i spare used (r ∷ rs) =
    scan_tags now local remote (i + 1) (if is_spare now r then some i else spare)
      (if is_spare now r
        then used
        else if r.local == local && r.remote == remote
        then bit_or used (2 ^ r.tag) % 256
        else used)
      rs

-- The second loop, with `left` rounds left: the first free tag from the round robin's on.
unfoldable pub find_tag : ℕ → ℕ → ℕ → ℕ → Option ℕ
find_tag zero t round_robin used = none
find_tag (suc left) t round_robin used =
    let tag = (t + round_robin) % 8 in
    let rest = find_tag left (t + 1) round_robin used in
    if bit_and used (2 ^ tag) == 0 then some tag else rest

-- The pair's slot and tag, and the state with them taken.
unfoldable pub assign_tag : ℕ → ℕ → ℕ → ℕ → ℕ → Mctp → Mctp
assign_tag now local remote slot tag m = record m {
  req_tags =
      set m.req_tags slot
        record { local = local; remote = remote; tag = tag; expiry = add_size now tag_timeout };
  tag_round_robin = (tag + 1) % 8;
}

-- What `mctp_alloc_tag` chooses: the slot and the tag, or none where it returns -EBUSY.
unfoldable pub choose_tag : ℕ → ℕ → ℕ → Mctp → Option (ℕ × ℕ)
choose_tag now local remote m =
    let (spare, used) = scan_tags now local remote 0 none 0 m.req_tags in
    elim spare [
      | none ↦ none
      | some slot ↦ elim (find_tag 8 0 m.tag_round_robin used) [
        | none ↦ none
        | some tag ↦ some (slot, tag)
      ]
    ]

module _ (p : Platform) where
  -- `mctp_alloc_tag`: the tag, or -EBUSY as `none`.
  unfoldable pub alloc_tag : ℕ → ℕ → M (Option ℕ)
  alloc_tag local remote = do
    require (not (local == 0))
    tr ← get_trace
    chosen ← gets (choose_tag (p.now tr) local remote)
    elim chosen [
      | none ↦ pure none
      | some (slot, tag) ↦ modify (assign_tag (p.now tr) local remote slot tag) >> pure (some tag)
    ]

  -- `mctp_message_tx_request`: the return code, and what goes through `ret_alloc_msg_tag`.
  unfoldable pub message_tx_request : ℕ → List ℕ → M (Rc × Option ℕ)
  message_tx_request eid msg = do
    found ← gets (λ m. find_bus_for_eid m eid)
    elim found [
      | none ↦ emit freed >> pure (success, none)
      | some i ↦ do
        bus ← get_bus i
        tag ← alloc_tag bus.eid eid
        elim tag [
          | none ↦ emit freed >> pure (ebusy, none)
          | some t ↦ do rc ← message_tx_alloced p eid true t msg; pure (rc, some t)
        ]
    ]
