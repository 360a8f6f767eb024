-- ===== src/Exchange/Steps.antt =====
-- The exchange goes along: bulk transfers and the sequence number are all that it changes.
use usbmux_tool.Base.{ℕ, Option, none, some, List, Ret, there}
use usbmux_tool.Proto.Header.{Header}
use usbmux_tool.Proto.Codec.{build_frame}
use usbmux_tool.Device.Platform.{Platform}
use usbmux_tool.Device.State.{Device, State, continue, lift, next_seq}
use usbmux_tool.Device.Along.{
  Kept, Along, Goes, Along-refl, Along-trans, continue-Along, next_seq-Along,
}
use usbmux_tool.Device.Write.{write_frame}
use usbmux_tool.Device.Write.Steps.{write_frame-Goes}
use usbmux_tool.Device.Read.Steps.{read_frame-Along}
use usbmux_tool.Exchange.{read_local, send_frame, request, transact, transact_on}
use usbmux_tool.Exchange.Accept.{frame_buffer, accept}

module _ (P : Platform) (K : Kept P) where
  pub lift-Goes : {A : Type 0} (r : Ret A) → Goes P K (lift r)
  lift-Goes r s = Along-refl P K s

  pub read_local-Goes : Goes P K (read_local P)
  unfolding read_local
  read_local-Goes s = read_frame-Along P K (some frame_buffer) 512 (some 0) s

  pub send_frame-Goes :
      (h : Header) (payload : Option (List ℕ)) (n : ℕ) → Goes P K (send_frame P h payload n)
  unfolding send_frame
  send_frame-Goes h payload n s =
      continue-Along P K s (build_frame (some frame_buffer) 512 there (some h) payload n, s)
        (λ b. write_frame P (some b.dst) b.frame_len) (Along-refl P K s)
        (λ b. write_frame-Goes P K (some b.dst) b.frame_len)

  transact_on-Along :
      (device : Option Device) (ch_type ch_id msg_type opcode : ℕ) (payload : Option (List ℕ))
      (n : ℕ) (dst : Option (List ℕ)) (capacity : ℕ) (s : State P.World)
      → Along P K s (transact_on P device ch_type ch_id msg_type opcode payload n dst capacity s).1
  unfolding transact_on
  transact_on-Along none ch_type ch_id msg_type opcode payload n dst capacity s = Along-refl P K s
  transact_on-Along (some d) ch_type ch_id msg_type opcode payload n dst capacity s =
      let (seq, t) = next_seq s in
      Along-trans P K s t _ (next_seq-Along P K s) (
        continue-Along P K t
          (send_frame P (request P seq ch_type ch_id msg_type opcode) payload n t)
          (λ done u.
            continue (read_local P u).0 (λ f. lift (accept f seq ch_type ch_id opcode dst capacity))
              (read_local P u).1)
          (send_frame-Goes (request P seq ch_type ch_id msg_type opcode) payload n t)
          (λ done u.
            continue-Along P K u (read_local P u)
              (λ f. lift (accept f seq ch_type ch_id opcode dst capacity)) (read_local-Goes u)
              (λ f. lift-Goes (accept f seq ch_type ch_id opcode dst capacity))))

  pub transact-Goes :
      (ch_type ch_id msg_type opcode : ℕ) (payload : Option (List ℕ)) (n : ℕ)
      (dst : Option (List ℕ)) (capacity : ℕ)
      → Goes P K (transact P ch_type ch_id msg_type opcode payload n dst capacity)
  unfolding transact
  transact-Goes ch_type ch_id msg_type opcode payload n dst capacity s =
      transact_on-Along s.device ch_type ch_id msg_type opcode payload n dst capacity s
