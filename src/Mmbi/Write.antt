-- ===== src/Mmbi/Write.antt =====
-- What `mctp_mmbi_tx` comes to: the attempts to write to a device, or the copy into the region.
use ps_libmctp_win.Prelude.{
  ℕ, zero, suc, ◌+◌, ◌^◌, ◌<◌, ◌≡◌, ◌≢◌, ◌⊎◌, inl, inr, ◌∙◌, ap, refl, sym, Bool, true, false, some,
  List, [], ◌∷◌, ◌++◌, subst, length, take, take_all, drop, write_at, arith, Bool-cases, ltb,
  ltb-false→le, slice-write_at, if◌then◌else◌, ◌||◌, ◌==◌, not, append-nil, append_assoc, slice,
  ◌-◌,
}
use ps_libmctp_win.Packet.{Pktbuf, pktbuf_size, contents}
use ps_libmctp_win.Core.State.{Rc, success, eio, ebusy, emsgsize, Trace}
use ps_libmctp_win.Core.Reassembly.Bounds.{IsPkt}
use ps_libmctp_win.Mmbi.{Mmbi, Device, dword, wire, wrote, last_answer, write_loop, mmbi_tx}
use ps_libmctp_win.Mmbi.Wire.{length-wire}

wire-size : (pkt : Pktbuf) → IsPkt pkt → length (wire pkt) ≡ pktbuf_size pkt
wire-size pkt v = length-wire pkt v ∙ omega (arith, v.at_start, v.has_hdr, v.stored, v.small)

wire-contents : (pkt : Pktbuf) → IsPkt pkt → wire pkt ≡ contents pkt
wire-contents pkt v =
    ap (λ n. slice pkt.bytes pkt.mctp_hdr_off n)
      (omega (arith, v.at_start, v.has_hdr, v.stored, v.small))
    ∙ ap (λ o. slice pkt.bytes o (pkt.end - pkt.start)) v.at_start

-- What the attempts put onto the device: each the first bytes of the buffer, as many as WriteFile
-- says that it has written.
unfoldable pub put : List ℕ → List (Bool × ℕ) → List ℕ
put buf [] = []
put buf (answer ∷ answers) = take answer.1 buf ++ put buf answers

-- Writing a buffer in so many attempts, from attempt `k` on, puts bytes onto the device and comes to
-- a return code: an attempt that writes the whole buffer is the last, any other leaves what it has
-- written and is followed by the next, and when none is left it is -EIO.
pub data Writes (dev : Device) (tr : Trace) (buf : List ℕ) : ℕ → ℕ → List ℕ → Rc → Type 0 where
  whole :
      (left k : ℕ)
      → dev.write_file tr k buf ≡ (true, length buf)
      → Writes dev tr buf (suc left) k buf success
  again :
      (left k : ℕ) (out : List ℕ) (rc : Rc)
      → dev.write_file tr k buf ≢ (true, length buf)
      → Writes dev tr buf left (k + 1) out rc
      → Writes dev tr buf (suc left) k (take (dev.write_file tr k buf).1 buf ++ out) rc
  stops : (k : ℕ) → Writes dev tr buf 0 k [] eio

-- The return code that the answers to WriteFile lead to.
unfoldable pub outcome : ℕ → List (Bool × ℕ) → Rc
outcome len answers =
    let (res, bytes_written) = last_answer answers in
    if not res || not (bytes_written == len) then eio else success

outcome-again :
    (len : ℕ) (a : Bool × ℕ) (answers : List (Bool × ℕ))
    → wrote len a ≡ false
    → outcome len (a ∷ answers) ≡ outcome len answers
unfolding outcome
outcome-again len a [] e = ground arith
outcome-again len a (b ∷ answers) e = refl

outcome-whole : (len : ℕ) (a : Bool × ℕ) → wrote len a ≡ true → outcome len (a ∷ []) ≡ success
unfolding outcome
outcome-whole len a e = ground arith

wrote-whole : (len : ℕ) (a : Bool × ℕ) → wrote len a ≡ true → a ≡ (true, len)
wrote-whole len (true, n) e = ap (λ (m : ℕ). (true, m)) (ground arith)
wrote-whole len (false, n) e = absurd (ground arith)

wrote-part : (len : ℕ) (a : Bool × ℕ) → wrote len a ≡ false → a ≢ (true, len)
wrote-part len a e same =
    ground (arith, ap (λ (x : Bool × ℕ). x.0) same, ap (λ (x : Bool × ℕ). x.1) same)

put-whole : (buf : List ℕ) (a : Bool × ℕ) → a ≡ (true, length buf) → put buf (a ∷ []) ≡ buf
unfolding put
put-whole buf a e =
    append-nil (take a.1 buf)
    ∙ ap (λ (x : Bool × ℕ). take x.1 buf) e
    ∙ take_all (length buf) buf (omega arith)

put-cons :
    (buf : List ℕ) (a : Bool × ℕ) (answers : List (Bool × ℕ))
    → put buf (a ∷ answers) ≡ take a.1 buf ++ put buf answers
unfolding put
put-cons buf a answers = refl

module _ (dev : Device) (tr : Trace) where
  no_attempt : (k : ℕ) (buf : List ℕ) → Writes dev tr buf 0 k (put buf []) (outcome (length buf) [])
  unfolding put outcome
  no_attempt k buf = stops k

  write_loop-Writes :
      (left k : ℕ) (buf : List ℕ)
      → take (dword (length buf)) buf ≡ buf
      → let answers = write_loop dev left k tr buf (length buf) in
        Writes dev tr buf left k (put buf answers) (outcome (length buf) answers)
  unfolding write_loop
  write_loop-Writes zero k buf e = no_attempt k buf
  write_loop-Writes (suc left) k buf e =
      let answer = dev.write_file tr k buf in
      let answers = write_loop dev left (k + 1) tr buf (length buf) in
      elim (Bool-cases (wrote (length buf) answer)) [
        | inl on ↦
            let whole_buf = wrote-whole (length buf) answer on in
            rw (e, on, outcome-whole (length buf) answer on, put-whole buf answer whole_buf)
              (whole left k whole_buf)
        | inr part ↦
            rw
              (e, part, outcome-again (length buf) answer answers part, put-cons buf answer answers)
              (again left k (put buf answers) (outcome (length buf) answers)
                (wrote-part (length buf) answer part) (write_loop-Writes left (k + 1) buf e))
      ]

  -- What `mctp_mmbi_tx` puts onto the device for a packet.
  abbrev pub on_device : Pktbuf → List ℕ
  on_device pkt = put (wire pkt) (write_loop dev 3 0 tr (wire pkt) (pktbuf_size pkt))

  -- Its return code.
  abbrev pub tx_code : Pktbuf → Rc
  tx_code pkt = outcome (pktbuf_size pkt) (write_loop dev 3 0 tr (wire pkt) (pktbuf_size pkt))

  -- The return code is 0, and then the whole buffer stands last on the device, or -EIO.
  abbrev pub Ends : List ℕ → List ℕ → Rc → Type 0
  Ends buf out rc = (rc ≡ success) × ((before : List ℕ) × (out ≡ before ++ buf)) ⊎ (rc ≡ eio)

  abbrev part : List ℕ → ℕ → List ℕ
  part buf k = take (dev.write_file tr k buf).1 buf

  pub Writes-Ends :
      {buf : List ℕ} {left k : ℕ} {out : List ℕ} {rc : Rc}
      → Writes dev tr buf left k out rc
      → Ends buf out rc
  Writes-Ends (whole left k e) = inl (refl, ([], refl))
  Writes-Ends {buf} (again left k out rc n rest) = elim (Writes-Ends rest) [
    | inl (same, (before, e)) ↦ inl (
      same,
      (
        part buf k ++ before,
        ap (λ (l : List ℕ). part buf k ++ l) e ∙ sym (append_assoc (part buf k) before buf),
      ),
    )
    | inr failed ↦ inr failed
  ]
  Writes-Ends (stops k) = inr refl

  pub mmbi_tx-code :
      (m : Mmbi) (pkt : Pktbuf) → m.has_device ≡ true → mmbi_tx dev m tr pkt ≡ (tx_code pkt, m)
  unfolding mmbi_tx outcome
  mmbi_tx-code m pkt on = rw on

  pub tx_code-cases : (pkt : Pktbuf) → (tx_code pkt ≡ success) ⊎ (tx_code pkt ≡ eio)
  unfolding outcome
  tx_code-cases pkt = ground arith

  pub on_device-Writes :
      (pkt : Pktbuf)
      → IsPkt pkt
      → pktbuf_size pkt < 2 ^ 32
      → Writes dev tr (wire pkt) 3 0 (on_device pkt) (tx_code pkt)
  on_device-Writes pkt v small =
      subst
        (λ n.
          Writes dev tr (wire pkt) 3 0 (put (wire pkt) (write_loop dev 3 0 tr (wire pkt) n))
            (outcome n (write_loop dev 3 0 tr (wire pkt) n)))
        (wire-size pkt v)
        (write_loop-Writes 3 0 (wire pkt)
          (take_all (dword (length (wire pkt))) (wire pkt) (omega (arith, wire-size pkt v, small))))

  -- On a device, for a packet with a whole header of less than 2 ^ 32 bytes: `mctp_mmbi_tx` makes up
  -- to three attempts to write the bytes of the packet. The first that writes them all ends it with
  -- 0, and then these bytes are the last on the device, behind what earlier attempts have written
  -- of them; if none does, it returns -EIO. The binding is left as it is.
  pub mmbi_tx_device :
      (m : Mmbi) (pkt : Pktbuf)
      → IsPkt pkt
      → pktbuf_size pkt < 2 ^ 32
      → m.has_device ≡ true
      → (rc : Rc) × (mmbi_tx dev m tr pkt ≡ (rc, m))
        × Writes dev tr (contents pkt) 3 0 (on_device pkt) rc
        × Ends (contents pkt) (on_device pkt) rc
  mmbi_tx_device m pkt v small on =
      let w = on_device-Writes pkt v small in
      (
        tx_code pkt,
        mmbi_tx-code m pkt on,
        subst (λ buf. Writes dev tr buf 3 0 (on_device pkt) (tx_code pkt)) (wire-contents pkt v) w,
        subst (λ buf. Ends buf (on_device pkt) (tx_code pkt)) (wire-contents pkt v) (Writes-Ends w),
      )

  -- `mctp_mmbi_tx` never returns -EBUSY.
  pub mmbi_tx-ne_ebusy : (m : Mmbi) (pkt : Pktbuf) → (mmbi_tx dev m tr pkt).0 ≢ ebusy
  unfolding mmbi_tx
  mmbi_tx-ne_ebusy m pkt e = ground arith

drop-write_at_start : (xs ys : List ℕ) → drop (length ys) (write_at xs 0 ys) ≡ drop (length ys) xs
drop-write_at_start [] ys = refl
drop-write_at_start (x ∷ xs) [] = refl
drop-write_at_start (x ∷ xs) (y ∷ ys) = drop-write_at_start xs ys

-- Without a device, for a packet with a whole header and a transmit region of the given size:
-- `mctp_mmbi_tx` returns -EMSGSIZE and leaves the region alone if the packet is longer than it, and
-- otherwise returns 0, with the packet at the start of the region and the rest of it as it was.
pub mmbi_tx_region :
    (dev : Device) (m : Mmbi) (tr : Trace) (pkt : Pktbuf) (region : List ℕ)
    → IsPkt pkt
    → m.has_device ≡ false
    → m.tx_storage ≡ some region
    → length region ≡ m.memory_size
    → (m.memory_size < pktbuf_size pkt) × (mmbi_tx dev m tr pkt ≡ (emsgsize, m))
      ⊎ ((region' : List ℕ) × (mmbi_tx dev m tr pkt
            ≡ (success, record m { tx_storage = some region' }))
          × (take (pktbuf_size pkt) region' ≡ wire pkt)
          × (drop (pktbuf_size pkt) region' ≡ drop (pktbuf_size pkt) region))
unfolding mmbi_tx
mmbi_tx_region dev m tr pkt region v off has size =
    elim (Bool-cases (ltb m.memory_size (pktbuf_size pkt))) [
      | inl big ↦ inl (ground arith, simp (off, has, big))
      | inr fits ↦ inr (
        write_at region 0 (wire pkt),
        simp (off, has, fits),
        subst (λ n. take n (write_at region 0 (wire pkt)) ≡ wire pkt) len
            (slice-write_at region 0 (wire pkt)
              (omega (arith, len, size, ltb-false→le m.memory_size (pktbuf_size pkt) fits))),
        subst (λ n. drop n (write_at region 0 (wire pkt)) ≡ drop n region) len
            (drop-write_at_start region (wire pkt)),
      )
    ]
  where
    len : length (wire pkt) ≡ pktbuf_size pkt
    len = wire-size pkt v
