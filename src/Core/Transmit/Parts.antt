-- ===== src/Core/Transmit/Parts.antt =====
-- The packets that a message is cut into, and the step of `mctp_tx_complete` from one to the next.
use ps_libmctp_win.Prelude.{
  ℕ, zero, suc, ◌+◌, ◌%◌, ◌<◌, ◌≡◌, ◌∙◌, refl, Bool, true, false, none, some, List, [], ◌∷◌, ◌++◌,
  length, take, drop, arith, leb, if◌then◌else◌, bit_and, take_all, leb→le, length-write_at,
}
use ps_libmctp_win.Packet.{Pktbuf, pktbuf_init}
use ps_libmctp_win.Header.{flag_bits}
use ps_libmctp_win.Core.State.{Bus, Platform, Trace, success, transmitted, freed}
use ps_libmctp_win.Core.Transmit.{build_pkt, tx_complete}
use ps_libmctp_win.Core.Transmit.Progress.{IsSending, next_payload_lem, next_bus}
use ps_libmctp_win.Core.Transmit.Fragments.{View, view, mtu, unsent, unsent-length}

-- The parts that the rest of a message is cut into, at most `n` of them: the start flag on the first
-- part of the message, the end flag on the last, and sequence numbers that count on modulo 4.
unfoldable pub fragments : ℕ → ℕ → View → Bool → ℕ → List ℕ → List View
fragments zero most v som seq rest = []
fragments (suc n) most v som seq rest =
    let more = fragments n most v false ((seq + 1) % 4) (drop most rest) in
    if leb (length rest) most
    then record v { flags = flag_bits som true; seq = seq; payload = rest } ∷ []
    else record v { flags = flag_bits som false; seq = seq; payload = take most rest } ∷ more

-- What has been transmitted, first packet first.
unfoldable pub sent : Trace → List View
sent [] = []
sent (transmitted i pkt rc ∷ tr) = sent tr ++ (view pkt ∷ [])
sent (_ ∷ tr) = sent tr

-- The bus after a packet that was not the last.
abbrev pub advanced : Bus → Pktbuf → Bus
advanced bus pkt = record (next_bus bus pkt) {
  tx_seq = (bus.tx_seq + 1) % 4;
  tx_msgpos = bus.tx_msgpos + mtu bus;
}

seq_step : (s : ℕ) → s < 4 → bit_and (s + 1) 3 ≡ (s + 1) % 4
seq_step zero h = refl
seq_step (suc zero) h = refl
seq_step (suc (suc zero)) h = refl
seq_step (suc (suc (suc zero))) h = refl
seq_step (suc (suc (suc (suc n)))) h = absurd (omega arith)

pub tx_complete-last :
    (bus : Bus) (msg : List ℕ) (pkt : Pktbuf) (tr : Trace)
    → bus.tx_msg ≡ some msg
    → IsSending bus msg
    → leb (length (unsent bus msg)) (mtu bus) ≡ true
    → let (bus', tr') = tx_complete (next_bus bus pkt) tr in
      (bus'.tx_msg ≡ none) × (tr' ≡ freed ∷ tr)
unfolding tx_complete
tx_complete-last bus msg pkt tr e v h = ground (arith, next_payload_lem v, unsent-length bus v)

pub tx_complete-more :
    (bus : Bus) (msg : List ℕ) (pkt : Pktbuf) (tr : Trace)
    → bus.tx_msg ≡ some msg
    → IsSending bus msg
    → bus.tx_seq < 4
    → leb (length (unsent bus msg)) (mtu bus) ≡ false
    → tx_complete (next_bus bus pkt) tr ≡ (advanced bus pkt, tr)
unfolding tx_complete
tx_complete-more bus msg pkt tr e v s h =
    ground (arith, next_payload_lem v, unsent-length bus v, seq_step bus.tx_seq s)

-- The addresses and the tag of a bus's message, as every packet of it carries them.
abbrev pub route : Bus → View
route bus = record {
  src = bus.tx_src;
  dest = bus.tx_dest;
  tag_owner = bus.tx_to;
  tag = bus.tx_tag;
  flags = 0;
  seq = 0;
  payload = [];
}

-- A binding that takes every packet.
abbrev pub TakesAll : Platform → Type 0
TakesAll p = (tr : Trace) (i : ℕ) (pkt : Pktbuf) → p.tx tr i pkt ≡ success

pub fragments-last :
    (n most : ℕ) (v : View) (som : Bool) (seq : ℕ) (rest : List ℕ)
    → leb (length rest) most ≡ true
    → fragments (suc n) most v som seq rest
      ≡ record v { flags = flag_bits som true; seq = seq; payload = take most rest } ∷ []
unfolding fragments
fragments-last n most v som seq rest h = rw (h, take_all most rest (leb→le (length rest) most h))

pub fragments-more :
    (n most : ℕ) (v : View) (som : Bool) (seq : ℕ) (rest : List ℕ)
    → leb (length rest) most ≡ false
    → fragments (suc n) most v som seq rest
      ≡ record v { flags = flag_bits som false; seq = seq; payload = take most rest }
        ∷ fragments n most v false ((seq + 1) % 4) (drop most rest)
unfolding fragments
fragments-more n most v som seq rest h = rw h

pub length-build_pkt :
    (bus : Bus) (msg : List ℕ) → length (build_pkt bus msg).bytes ≡ length bus.binding.tx_storage
unfolding build_pkt pktbuf_init
length-build_pkt bus msg = length-write_at _ _ _ ∙ length-write_at _ _ _
