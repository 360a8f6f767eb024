-- ===== src/Exchange/Laws.antt =====
-- The exchange as a whole: what crosses the wire, and what a caller is given.
use usbmux_tool.Base.{
  ℕ, ◌≤◌, ◌≡◌, ◌≢◌, refl, sym, ap, subst, ◌∙◌, inl, inr, Option, some, List, ◌++◌, take, Ret,
  Ret-cases, Done, ok, err, fault,
}
use usbmux_tool.Proto.Header.{Header}
use usbmux_tool.Proto.Codec.Frame.{Holds}
use usbmux_tool.Proto.Codec.Wire.{frame_of}
use usbmux_tool.Device.Platform.{Platform, BulkLaws}
use usbmux_tool.Device.State.{Device, State, continue, bump, next_seq}
use usbmux_tool.Exchange.{read_local, send_frame, transact, transact_on}
use usbmux_tool.Exchange.Accept.{Response, accept}
use usbmux_tool.Exchange.Answer.{Answers, accept-Answers}
use usbmux_tool.Exchange.Delivery.{asking, Delivered, send_frame-Delivered}
use usbmux_tool.Exchange.Arrival.{read_local-ReadLocal}

module _ (P : Platform) (L : BulkLaws P) where
  -- A whole exchange that began in the state `s` with the device `d`.
  pub record Exchanged (s : State P.World) (d : Device) (ch_type ch_id msg_type opcode : ℕ)
      (payload : Option (List ℕ)) (n : ℕ) (dst : Option (List ℕ)) (capacity : ℕ) (r : Ret Response)
      (s' : State P.World) : Type 0 where
    pub defined : r ≢ fault
    pub device : s'.device ≡ some (bump d)
    pub sent : ℕ
    pub wire :
        L.delivered s'.world
        ≡ L.delivered s.world
          ++ take sent (frame_of (asking d.next_seq ch_type ch_id msg_type opcode) payload n)
    pub answered :
        (rsp : Response)
        → r ≡ ok rsp
        → (n ≤ 488)
          × (L.delivered s'.world
              ≡ L.delivered s.world
                ++ frame_of (asking d.next_seq ch_type ch_id msg_type opcode) payload n)
          × (bytes : List ℕ) × (count : ℕ) × (frame_len : ℕ) × (L.received s'.world
              ≡ L.received s.world ++ take count bytes)
          × (frame_len ≤ count)
          × (Answers bytes frame_len d.next_seq ch_type ch_id opcode dst capacity rsp)

  -- The part of the exchange behind the writing.
  received-Exchanged :
      (s s₁ : State P.World) (d : Device) (ch_type ch_id msg_type opcode : ℕ)
      (payload : Option (List ℕ)) (n : ℕ) (dst : Option (List ℕ)) (capacity : ℕ)
      → Delivered P L
          (record s { device = some (bump d) })
          (asking d.next_seq ch_type ch_id msg_type opcode)
          payload
          n
          (ok tt)
          s₁
      → Holds dst capacity
      → let (r, s₂) = read_local P s₁ in
        let (out, s₃) =
          continue r (λ f t. (accept f d.next_seq ch_type ch_id opcode dst capacity, t)) s₂ in
        Exchanged s d ch_type ch_id msg_type opcode payload n dst capacity out s₃
  received-Exchanged s s₁ d ch_type ch_id msg_type opcode payload n dst capacity w held =
      let read = read_local-ReadLocal P L s₁ (bump d) w.device in
      elim (Ret-cases (read_local P s₁).0 read.defined) [
        | inr (e, failed) ↦ rw failed (record {
          defined = λ h. cc;
          device = read.device ∙ w.device;
          sent = w.count;
          wire = read.quiet ∙ w.wire;
          answered = λ rsp h. absurd (cc);
        })
        | inl (f, fine) ↦
            let (count, stream, complete, size) = read.arrived f fine in
            let (safe, facts) =
              accept-Answers f.bytes f.frame_len d.next_seq ch_type ch_id opcode dst capacity count
                complete size held in
            let (small, all) = w.whole refl in
            rw fine (record {
              defined = safe;
              device = read.device ∙ w.device;
              sent = w.count;
              wire = read.quiet ∙ w.wire;
              answered = λ rsp h. (
                small,
                read.quiet ∙ all,
                f.bytes,
                count,
                f.frame_len,
                stream ∙ ap (λ (x : List ℕ). x ++ take count f.bytes) w.quiet,
                complete.arrived,
                facts rsp h,
              );
            })
      ]

  transact_open :
      (w₀ : P.World) (d : Device) (ch_type ch_id msg_type opcode : ℕ) (payload : Option (List ℕ))
      (n : ℕ) (dst : Option (List ℕ)) (capacity : ℕ)
      → Holds payload n
      → Holds dst capacity
      → let s : State P.World = record { device = some d; world = w₀ } in
        let (r, s') = transact P ch_type ch_id msg_type opcode payload n dst capacity s in
        Exchanged s d ch_type ch_id msg_type opcode payload n dst capacity r s'
  unfolding transact transact_on next_seq
  transact_open w₀ d ch_type ch_id msg_type opcode payload n dst capacity held_out held_in =
      after (send_frame P q payload n s₀) sent
    where
      s : State P.World
      s = record { device = some d; world = w₀ }

      q : Header
      q = asking d.next_seq ch_type ch_id msg_type opcode

      s₀ : State P.World
      s₀ = record s { device = some (bump d) }

      sent : let (r, s') = send_frame P q payload n s₀ in Delivered P L s₀ q payload n r s'
      sent = send_frame-Delivered P L s₀ (bump d) q payload n refl held_out

      after :
          (m : Ret Done × State P.World)
          → Delivered P L s₀ q payload n m.0 m.1
          → let (out, s₃) =
              continue m.0
                (λ _. λ t.
                  continue
                    (read_local P t).0
                    (λ f u. (accept f d.next_seq ch_type ch_id opcode dst capacity, u))
                    (read_local P t).1)
                m.1 in
            Exchanged s d ch_type ch_id msg_type opcode payload n dst capacity out s₃
      after (ok done, s₁) w =
          received-Exchanged s s₁ d ch_type ch_id msg_type opcode payload n dst capacity w held_in
      after (err e, s₁) w = record {
        defined = λ h. cc;
        device = w.device;
        sent = w.count;
        wire = w.wire;
        answered = λ rsp h. absurd (cc);
      }
      after (fault, s₁) w = absurd (w.defined refl)

  pub transact-Exchanged :
      (s : State P.World) (d : Device) (ch_type ch_id msg_type opcode : ℕ)
      (payload : Option (List ℕ)) (n : ℕ) (dst : Option (List ℕ)) (capacity : ℕ)
      → s.device ≡ some d
      → Holds payload n
      → Holds dst capacity
      → let (r, s') = transact P ch_type ch_id msg_type opcode payload n dst capacity s in
        Exchanged s d ch_type ch_id msg_type opcode payload n dst capacity r s'
  transact-Exchanged s d ch_type ch_id msg_type opcode payload n dst capacity opened held_out
        held_in =
      subst
        (λ (x : State P.World).
          let (r, s') = transact P ch_type ch_id msg_type opcode payload n dst capacity x in
          Exchanged x d ch_type ch_id msg_type opcode payload n dst capacity r s')
        (λ i. record { device = sym opened i; world = s.world })
        (transact_open s.world d ch_type ch_id msg_type opcode payload n dst capacity held_out
          held_in)
