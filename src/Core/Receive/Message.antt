-- ===== src/Core/Receive/Message.antt =====
-- The packets of a message, received in order, come to one delivery of the message.
use ps_libmctp_win.Prelude.{
  ℕ, zero, suc, ◌+◌, ◌%◌, ◌≤◌, ◌<◌, ◌≡◌, ◌≢◌, inl, inr, ◌∙◌, ap, sym, subst, refl, Bool, true,
  false, List, [], ◌∷◌, ◌++◌, length, take, drop, arith, Bool-cases, leb, map, All, leb→le,
  leb-false→lt, length-take, length-drop, take-append-drop, get_or, ap₂, append_assoc,
  length-append,
}
use ps_libmctp_win.Packet.{Pktbuf}
use ps_libmctp_win.Header.{flag_bits}
use ps_libmctp_win.Core.State.{Bus, MsgCtx, Platform, World, done, ◌>>=◌}
use ps_libmctp_win.Core.Transmit.Fragments.{View, view}
use ps_libmctp_win.Core.Transmit.Parts.{fragments}
use ps_libmctp_win.Core.Reassembly.Bounds.{IsPkt}
use ps_libmctp_win.Core.Receive.{bus_rx}
use ps_libmctp_win.Core.Receive.Steps.{IsPlain}
use ps_libmctp_win.Core.Receive.Views.{deliveries, rx_all, IsReceiving, IsFreed}
use ps_libmctp_win.Core.Receive.Middle.{middle}
use ps_libmctp_win.Core.Receive.Final.{final}

pub map-nil {ℓ κ} : {A : Type ℓ} {B : Type κ} (f : A → B) (xs : List A) → map f xs ≡ [] → xs ≡ []
map-nil f [] e = refl
map-nil f (x ∷ xs) e = cc

pub head-eq {ℓ} : {A : Type ℓ} {x y : A} {xs ys : List A} → x ∷ xs ≡ y ∷ ys → x ≡ y
head-eq {x} e = ap (λ l. get_or l 0 x) e

pub tail-eq {ℓ} : {A : Type ℓ} {x y : A} {xs ys : List A} → x ∷ xs ≡ y ∷ ys → xs ≡ ys
tail-eq e = ap (drop 1) e

pub fragments-end :
    (n most : ℕ) (v : View) (som : Bool) (seq : ℕ) (rest : List ℕ)
    → leb (length rest) most ≡ true
    → fragments (suc n) most v som seq rest
      ≡ record v { flags = flag_bits som true; seq = seq; payload = rest } ∷ []
unfolding fragments
fragments-end n most v som seq rest h = rw h

pub fragments-next :
    (n most : ℕ) (v : View) (som : Bool) (seq : ℕ) (rest : List ℕ)
    → leb (length rest) most ≡ false
    → fragments (suc n) most v som seq rest
      ≡ record v { flags = flag_bits som false; seq = seq; payload = take most rest }
        ∷ fragments n most v false ((seq + 1) % 4) (drop most rest)
unfolding fragments
fragments-next n most v som seq rest h = rw h

pub fragments-ne_nil :
    (n most : ℕ) (v : View) (som : Bool) (seq : ℕ) (rest : List ℕ)
    → fragments (suc n) most v som seq rest ≢ []
unfolding fragments
fragments-ne_nil n most v som seq rest = ground arith

module _ (p : Platform) (i : ℕ) (bus : Bus) (r : View) (most : ℕ) where
  -- The packets `pkts` came to one delivery of `msg`, and slot `k` is free again.
  abbrev pub Delivers : ℕ → List ℕ → List Pktbuf → World → Type 0
  Delivers k msg pkts w =
      (w' : World) × (rx_all p i pkts w ≡ done tt w')
      × (deliveries w'.trace ≡ deliveries w.trace ++ ((r.src, r.tag_owner, r.tag, msg) ∷ []))
      × IsFreed k w'

  pub rx_all-more :
      (pkt : Pktbuf) (pkts : List Pktbuf) (w : World) {w' : World}
      → bus_rx p i pkt w ≡ done tt w'
      → rx_all p i (pkt ∷ pkts) w ≡ rx_all p i pkts w'
  unfolding rx_all
  rx_all-more pkt pkts w run = rw (run, ◌>>=◌)

  pub rx_all-one :
      (pkt : Pktbuf) (pkts : List Pktbuf) (w : World) {w' : World}
      → pkts ≡ []
      → bus_rx p i pkt w ≡ done tt w'
      → rx_all p i (pkt ∷ pkts) w ≡ done tt w'
  unfolding rx_all
  rx_all-one pkt pkts w {w'} e run = rx_all-more pkt pkts w run ∙ ap (λ l. rx_all p i l w') e

  -- The rest of a message.
  pub Delivers-rest :
      (n : ℕ) (pkts : List Pktbuf) {seq k : ℕ} {c : MsgCtx} {bytes pre : List ℕ} (rest : List ℕ)
      (w : World)
      → 0 < most
      → map view pkts ≡ fragments n most r false seq rest
      → All IsPkt pkts
      → IsReceiving i bus r most seq k c bytes pre w
      → length rest < n
      → length pre + length rest ≤ c.buf_alloc_size
      → IsPlain (pre ++ rest)
      → Delivers k (pre ++ rest) pkts w
  Delivers-rest zero pkts rest w pos e vs h fuel room plain = absurd (omega arith)
  Delivers-rest (suc n) [] {seq} rest w pos e vs h fuel room plain =
      absurd (fragments-ne_nil n most r false seq rest (sym e))
  Delivers-rest (suc n) (pkt ∷ pkts) {seq} {pre} rest w pos e vs h fuel room plain =
      elim (Bool-cases (leb (length rest) most)) [
        | inl last ↦
            let split = e ∙ fragments-end n most r false seq rest last in
            let f =
              final p i bus r most pkt w h vs.0 (head-eq split) (leb→le (length rest) most last)
                room plain in
            (f.0, rx_all-one pkt pkts w (map-nil view pkts (tail-eq split)) f.1, f.2, f.3)
        | inr more ↦
            let split = e ∙ fragments-next n most r false seq rest more in
            let longer = leb-false→lt (length rest) most more in
            let full : length (take most rest) ≡ most =
              omega (arith, length-take most rest, longer) in
            let m = middle p i bus r most pkt w h vs.0 (head-eq split) full (omega arith) in
            let whole : (pre ++ take most rest) ++ drop most rest ≡ pre ++ rest =
              append_assoc pre (take most rest) (drop most rest)
              ∙ ap (λ l. pre ++ l) (take-append-drop most rest) in
            let ih =
              Delivers-rest n pkts (drop most rest) m.2 pos (tail-eq split) vs.1 m.4
                (omega (arith, length-drop most rest, longer))
                (omega (
                  arith,
                  m.6,
                  length-append pre (take most rest),
                  full,
                  length-drop most rest,
                  longer,
                ))
                (subst IsPlain (sym whole) plain) in
            (
              ih.0,
              rx_all-more pkt pkts w m.3 ∙ ih.1,
              ih.2 ∙ ap₂ (λ l x. l ++ ((r.src, r.tag_owner, r.tag, x) ∷ [])) m.5 whole,
              ih.3,
            )
      ]
