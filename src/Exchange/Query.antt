-- ===== src/Exchange/Query.antt =====
-- Commands that ask for a fixed number of bytes and read fields out of them.
use usbmux_tool.Base.{
  ℕ, ◌+◌, ◌≤◌, ◌≡◌, ◌≢◌, refl, sym, ap, subst, ◌∙◌, arith, some, none, Option, List, [], ◌++◌,
  drop-front, length, take, drop, splice, replicate, length-replicate, length-take, length-drop,
  Ret, ok, err, fault, !=_true, append-nil,
}
use usbmux_tool.Device.Platform.{Platform, BulkLaws}
use usbmux_tool.Device.State.{Device, State, bump, continue, lift}
use usbmux_tool.Exchange.Accept.{Response, fields_of, or_empty}
use usbmux_tool.Exchange.Answer.{Answers}
use usbmux_tool.Exchange.Payload.{filled}
use usbmux_tool.Exchange.Laws.{Exchanged}

-- A local buffer that is filled to its end holds what was copied.
whole_copy : (n : ℕ) (src : List ℕ) → length src ≡ n → splice (replicate n 0) 0 src ≡ src
whole_copy n src e =
    ap (λ (k : ℕ). src ++ drop {A = ℕ} k (replicate n 0)) reached
    ∙ ap (λ (t : List ℕ). src ++ t) nothing_left
    ∙ append-nil src
  where
    reached : 0 + length src ≡ n
    reached = omega (arith, e)

    nothing_left : drop {A = ℕ} n (replicate n 0) ≡ []
    nothing_left =
        ap (λ (t : List ℕ). drop n t) (sym (append-nil (replicate n 0)))
        ∙ drop-front n (replicate n 0) [] (length-replicate n 0)

-- So a response of as many bytes as the buffer has fills it with the received payload.
filled_whole :
    (n : ℕ) (bytes : List ℕ)
    → 1 ≤ n
    → 24 + n ≤ length bytes
    → filled (some (replicate n 0)) bytes n ≡ some (take n (drop 24 bytes))
filled_whole n bytes some_bytes held = rw (!=_true n 0 (omega arith)) (
    ap some (
      whole_copy n (take n (drop 24 bytes))
        (omega (arith, length-take n (drop 24 bytes), length-drop 24 bytes))))

module _ {A : Type 0} (size : ℕ) (parse : List ℕ → A) where
  fields_of-ok :
      (r : Response) (a : A)
      → fields_of size parse r ≡ ok a
      → (r.len ≡ size) × (parse (or_empty r.payload) ≡ a)
  fields_of-ok r a h = ground arith

  fields_of-defined : (r : Response) → fields_of size parse r ≢ fault
  fields_of-defined r = ground arith

module _ (P : Platform) (L : BulkLaws P) where
  -- After a query that began in the state `s` with the device `d`: a report that is given is what
  -- the `size` payload bytes of a received answer to it say.
  pub record Reported {A : Type 0} (s : State P.World) (d : Device) (ch_type ch_id opcode size : ℕ)
      (parse : List ℕ → A) (r : Ret A) (s' : State P.World) : Type 0 where
    pub defined : r ≢ fault
    pub device : s'.device ≡ some (bump d)
    pub report :
        (a : A)
        → r ≡ ok a
        → (bytes : List ℕ) × (count : ℕ) × (L.received s'.world
            ≡ L.received s.world ++ take count bytes)
          × (24 + size ≤ count)
          × (rsp : Response) × (Answers bytes
              (24 + size)
              d.next_seq
              ch_type
              ch_id
              opcode
              (some (replicate size 0))
              size
              rsp)
          × (a ≡ parse (take size (drop 24 bytes)))

  -- An exchange for `size` bytes, with the fields read from its response.
  pub query-Reported :
      {A : Type 0} (s : State P.World) (d : Device) (ch_type ch_id opcode size : ℕ)
      (parse : List ℕ → A) (o : Ret Response × State P.World)
      → 1 ≤ size
      → Exchanged P L s d ch_type ch_id 0x01 opcode none 0 (some (replicate size 0)) size o.0 o.1
      → let (r, s') = continue o.0 (λ rsp. lift (fields_of size parse rsp)) o.1 in
        Reported s d ch_type ch_id opcode size parse r s'
  query-Reported s d ch_type ch_id opcode size parse (err e, t) room x = record {
    defined = λ h. cc;
    device = x.device;
    report = λ a h. absurd (cc);
  }
  query-Reported s d ch_type ch_id opcode size parse (fault, t) room x = absurd (x.defined refl)
  query-Reported s d ch_type ch_id opcode size parse (ok rsp, t) room x = record {
    defined = fields_of-defined size parse rsp;
    device = x.device;
    report = λ a h.
        let (n, all, bytes, count, frame_len, stream, arrived, answers) = x.answered rsp refl in
        let (whole, fields) = fields_of-ok size parse rsp a h in
        let ends : 24 + size ≡ frame_len = omega (arith, answers.ends, whole) in
        let payload : rsp.payload ≡ some (take size (drop 24 bytes)) =
          answers.filled_with
          ∙ ap (λ (k : ℕ). filled (some (replicate size 0)) bytes k) whole
          ∙ filled_whole size bytes room (omega (arith, answers.held, whole)) in
        (
          bytes,
          count,
          stream,
          omega (arith, arrived, ends),
          rsp,
          subst
              (λ (k : ℕ).
                Answers bytes k d.next_seq ch_type ch_id opcode (some (replicate size 0)) size rsp)
              (sym ends) answers,
          sym fields ∙ ap (λ (p : Option (List ℕ)). parse (or_empty p)) payload,
        );
  }
