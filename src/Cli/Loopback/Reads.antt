-- ===== src/Cli/Loopback/Reads.antt =====
-- Reads of a port that succeed, and the size of what they return.
use usbmux_tool.Base.{
  ℕ, ◌+◌, ◌≤◌, Bool, true, false, Option, none, some, List, [], ◌∷◌, ◌++◌, replicate, length, take,
  drop, splice, length-splice, length-take, length-drop, Ret, ok, err, fault, there, refl, ap, ap₂,
  ◌≡◌, ◌||◌, ◌&&◌, ◌==◌, ◌!=◌, ltb, leb, arith, ◌>>=◌, ◌>>◌, fail_if, in_bounds, err_proto,
  err_overflow, ==_iff,
}
use usbmux_tool.Proto.Header.{Header}
use usbmux_tool.Proto.Codec.{decode_header}
use usbmux_tool.Device.Platform.{Platform}
use usbmux_tool.Device.State.{Device, State, continue}
use usbmux_tool.Exchange.{read_local}
use usbmux_tool.Exchange.Accept.{LocalFrame}
use usbmux_tool.Uart.Stream.{Taken, take_data, uart_read, uart_read_on}
use usbmux_tool.Cli.Text.{text_eq}

pub text_eq_lem : (a b : List ℕ) → text_eq a b ≡ true → a ≡ b
text_eq_lem [] [] p = refl
text_eq_lem [] (b ∷ bs) p = absurd (cc)
text_eq_lem (a ∷ as') [] p = absurd (cc)
text_eq_lem (a ∷ as') (b ∷ bs) p =
    let (same, rest) = both (a == b) (text_eq as' bs) p in
    ap₂ ◌∷◌ ((==_iff a b).0 same) (text_eq_lem as' bs rest)
  where
    both : (x y : Bool) → (x && y) ≡ true → (x ≡ true) × (y ≡ true)
    both true y h = (refl, h)
    both false y h = absurd (cc)

-- A chunk is as long as it says.
take_data_size :
    (f : LocalFrame) (port : ℕ) (dst : List ℕ) (capacity : ℕ) (t : Taken)
    → take_data f port dst capacity ≡ ok t
    → t.len ≤ length t.bytes
unfolding take_data
take_data_size f port dst capacity t p = go (decode_header (some f.bytes) f.frame_len there) p
  where
    sized :
        (h : Header)
        → (h.payload_len ≤ length dst)
        → (24 + h.payload_len ≤ length f.bytes)
        → (record {
          bytes = splice dst 0 (take h.payload_len (drop 24 f.bytes));
          len = h.payload_len;
        })
          ≡ t
        → t.len ≤ length t.bytes
    sized h fits inside same = rw (← same) (
        omega (
          arith,
          length-splice dst (take h.payload_len (drop 24 f.bytes)) 0
              (omega (arith, length-take h.payload_len (drop 24 f.bytes), length-drop 24 f.bytes)),
        ))

    go :
        (r : Ret Header)
        → (do
          h ← r
          fail_if (h.ch_type != 0x02 || h.ch_id != port || h.msg_type != 0x04) err_proto
          fail_if (ltb capacity h.payload_len) err_overflow
          in_bounds (leb h.payload_len (length dst) && leb (24 + h.payload_len) (length f.bytes))
          ok (record {
            bytes = splice dst 0 (take h.payload_len (drop 24 f.bytes));
            len = h.payload_len;
          }))
          ≡ ok t
        → t.len ≤ length t.bytes
    go (err e) q = absurd (cc)
    go fault q = absurd (cc)
    go (ok h) q =
        let facts : (h.payload_len ≤ length dst)
            × (24 + h.payload_len ≤ length f.bytes)
            × ((record {
              bytes = splice dst 0 (take h.payload_len (drop 24 f.bytes));
              len = h.payload_len;
            })
                ≡ t) =
          ground arith in
        sized h facts.0 facts.1 facts.2

module _ (P : Platform) (port : ℕ) where
  -- Reads of the port that all succeed, and the bytes that they return, in order.
  pub data Reads : State P.World → List ℕ → State P.World → Type 0 where
    no_more : (s : State P.World) → Reads s [] s
    one_more :
        (s t u : State P.World) (c : Taken) (bytes : List ℕ)
        → uart_read P port (some (replicate 512 0)) 512 there s ≡ (ok c, t)
        → Reads t bytes u
        → Reads s (take c.len c.bytes ++ bytes) u

  pub uart_read_size :
      (s t : State P.World) (c : Taken)
      → uart_read P port (some (replicate 512 0)) 512 there s ≡ (ok c, t)
      → c.len ≤ length c.bytes
  unfolding uart_read uart_read_on
  uart_read_size s t c p = on s.device p
    where
      checked :
          (r : Ret LocalFrame) (v : State P.World)
          → continue r (λ frame s'. (take_data frame port (replicate 512 0) 512, s')) v ≡ (ok c, t)
          → c.len ≤ length c.bytes
      checked (ok f) v q =
          take_data_size f port (replicate 512 0) 512 c
            (ap (λ (x : Ret Taken × State P.World). x.0) q)
      checked (err e) v q = absurd (cc (ap (λ (x : Ret Taken × State P.World). x.0) q))
      checked fault v q = absurd (cc (ap (λ (x : Ret Taken × State P.World). x.0) q))

      on :
          (o : Option Device)
          → uart_read_on P o port (some (replicate 512 0)) 512 there s ≡ (ok c, t)
          → c.len ≤ length c.bytes
      on none q = absurd (cc (ap (λ (x : Ret Taken × State P.World). x.0) q))
      on (some d) q = checked (read_local P s).0 (read_local P s).1 q
