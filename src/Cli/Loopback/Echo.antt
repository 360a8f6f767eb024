-- ===== src/Cli/Loopback/Echo.antt =====
-- What the loop of the loopback has read when the command exits with 0.
use usbmux_tool.Base.{
  ℕ, zero, suc, subst, take-take, ◌+◌, ◌≤◌, Bool, true, false, some, List, [], ◌++◌, replicate,
  length, take, splice, append-nil, append_assoc, take-add-splice, length-splice, length-take, Ret,
  Code, ok, err, fault, there, refl, sym, ap, ◌∙◌, ◌≡◌, ◌≢◌, ◌||◌, not, ◌==◌, ◌!=◌, ltb,
  if◌then◌else◌, arith,
}
use usbmux_tool.Device.Platform.{Platform}
use usbmux_tool.Device.State.{State}
use usbmux_tool.Exchange.Accept.{Response}
use usbmux_tool.Uart.Port.{uart_close}
use usbmux_tool.Uart.Stream.{Taken, uart_read}
use usbmux_tool.Cli.Text.{text_eq}
use usbmux_tool.Cli.Ending.{Outcome, exited, branch, return}
use usbmux_tool.Cli.Loopback.{close_and_fail, compare_echo, take_chunk, read_echo}
use usbmux_tool.Cli.Loopback.Reads.{text_eq_lem, Reads, no_more, one_more, uart_read_size}

module _ (P : Platform) (port : ℕ) where
  -- The port is read until `payload` has come, behind what is there, and then it is closed.
  pub record Echoed (s : State P.World) (before payload : List ℕ) (v : State P.World) : Type 0 where
    pub bytes : List ℕ
    pub last : State P.World
    pub reads : Reads P port s bytes last
    pub same : before ++ bytes ≡ payload
    pub closed : (r : Response) × (uart_close P port last ≡ (ok r, v))

  -- Which end a branch has.
  pub branch_exited :
      {A : Type 0} (r : Ret A × State P.World) (next : A → State P.World → Outcome P.World)
      (failed : Code → State P.World → Outcome P.World) (n : ℕ)
      → (branch r next failed).exit ≡ exited n
      → ((e : Code) (t : State P.World) → (failed e t).exit ≢ exited n)
      → (a : A) × (t : State P.World) × (r ≡ (ok a, t))
        × ((next a t).exit ≡ exited n)
        × ((branch r next failed).state ≡ (next a t).state)
  unfolding branch
  branch_exited (ok a, t) next failed n p h = (a, t, refl, p, refl)
  branch_exited (err e, t) next failed n p h = absurd (h e t p)
  branch_exited (fault, t) next failed n p h = absurd (cc)

  pub close_and_fail_fails : (s : State P.World) → (close_and_fail P port s).exit ≢ exited 0
  unfolding branch
  close_and_fail_fails s p = go (uart_close P port s) p
    where
      go :
          (r : Ret Response × State P.World)
          → (branch r (λ a. return 1) (λ e. return 1)).exit ≢ exited 0
      go (ok a, t) q = cc
      go (err e, t) q = cc
      go (fault, t) q = cc

  pub chosen :
      (b : Bool) (x y : Outcome P.World)
      → (if b then x else y).exit ≡ exited 0
      → x.exit ≢ exited 0
      → (b ≡ false) × ((if b then x else y).state ≡ y.state) × (y.exit ≡ exited 0)
  chosen true x y p h = absurd (h p)
  chosen false x y p h = (refl, refl, p)

  compare_echo-Echoed :
      (baud : ℕ) (payload rx : List ℕ) (total : ℕ) (s : State P.World)
      → (compare_echo P port baud payload rx total s).exit ≡ exited 0
      → Echoed s (take total rx) payload (compare_echo P port baud payload rx total s).state
  unfolding compare_echo
  compare_echo-Echoed baud payload rx total s p =
      let (r, t, closing, ending, here) =
        branch_exited (uart_close P port s) _ _ 0 p (λ e t q. cc) in
      let (agree, there_t, fine) =
        chosen (total != length payload || not (text_eq (take (length payload) rx) payload)) _ _
          ending (λ q. cc) in
      record {
        bytes = [];
        last = s;
        reads = no_more s;
        same =
            append-nil (take total rx)
            ∙ equal (total != length payload) (text_eq (take (length payload) rx) payload) refl refl
                agree;
        closed = (r, closing ∙ ap (λ (x : State P.World). (ok r, x)) (sym (here ∙ there_t)));
      }
    where
      equal :
          (a b : Bool)
          → (total != length payload) ≡ a
          → text_eq (take (length payload) rx) payload ≡ b
          → (a || not b) ≡ false
          → take total rx ≡ payload
      equal false true p q h =
          let same : total ≡ length payload = ground arith in
          ap (λ (n : ℕ). take n rx) same ∙ text_eq_lem (take (length payload) rx) payload q
      equal false false p q h = absurd (cc)
      equal true b p q h = absurd (cc)

  -- What a chunk leads to when the end is good: it was neither empty nor too long.
  take_chunk_exited :
      (n : ℕ) (rx : List ℕ) (total : ℕ) (c : Taken)
      (again : List ℕ → ℕ → State P.World → Outcome P.World) (s : State P.World)
      → (take_chunk P port n rx total c again s).exit ≡ exited 0
      → let o = again (splice rx total (take c.len c.bytes)) (total + c.len) s in
        (total + c.len ≤ 512)
        × (o.exit ≡ exited 0)
        × ((take_chunk P port n rx total c again s).state ≡ o.state)
  unfolding take_chunk
  take_chunk_exited n rx total c again s p =
      let (fits, here, fine) =
        chosen (c.len == 0 || ltb 512 (total + c.len)) _ _ p (close_and_fail_fails s) in
      (ground arith, fine, here)

  -- A chunk in front of what is read after it.
  chunk-Echoed :
      (payload rx : List ℕ) (total : ℕ) (s t v : State P.World) (c : Taken)
      → length rx ≡ 512
      → total + c.len ≤ 512
      → uart_read P port (some (replicate 512 0)) 512 there s ≡ (ok c, t)
      → Echoed t (take (total + c.len) (splice rx total (take c.len c.bytes))) payload v
      → Echoed s (take total rx) payload v
  chunk-Echoed payload rx total s t v c long fits came e = record {
    bytes = take c.len c.bytes ++ e.bytes;
    last = e.last;
    reads = one_more s t e.last c e.bytes came e.reads;
    same =
        sym (append_assoc (take total rx) (take c.len c.bytes) e.bytes)
        ∙ ap (λ (xs : List ℕ). xs ++ e.bytes) (sym front)
        ∙ e.same;
    closed = e.closed;
  }
    where
      size : length (take c.len c.bytes) ≡ c.len
      size = omega (arith, uart_read_size P port s t c came, length-take c.len c.bytes)

      front :
          take (total + c.len) (splice rx total (take c.len c.bytes))
          ≡ take total rx ++ take c.len c.bytes
      front =
          take-add-splice rx (take c.len c.bytes) total (omega (arith, size)) c.len
            (omega (arith, size))
          ∙ ap (λ (xs : List ℕ). take total rx ++ xs) (take-take c.len c.len c.bytes (omega arith))

  pub read_echo-Echoed :
      (fuel baud : ℕ) (payload rx : List ℕ) (total : ℕ) (s : State P.World)
      → length rx ≡ 512
      → (read_echo P fuel port baud payload rx total s).exit ≡ exited 0
      → Echoed s (take total rx) payload (read_echo P fuel port baud payload rx total s).state
  unfolding read_echo
  read_echo-Echoed zero baud payload rx total s long p = absurd (cc)
  read_echo-Echoed (suc fuel) baud payload rx total s long p =
      go (ltb total (length payload)) _ p (λ q.
        let (c, t, came, ending, here) =
          branch_exited (uart_read P port (some (replicate 512 0)) 512 there s) _ _ 0 q
            (λ e t. close_and_fail_fails t) in
        let (fits, fine, there_t) =
          take_chunk_exited (length payload) rx total c
            (λ next m u. read_echo P fuel port baud payload next m u) t ending in
        subst (Echoed s (take total rx) payload) (sym (here ∙ there_t)) (
          chunk-Echoed payload rx total s t _ c long fits came (
            read_echo-Echoed fuel baud payload (splice rx total (take c.len c.bytes))
              (total + c.len) t (longer c.len c.bytes fits (uart_read_size P port s t c came))
              fine)))
    where
      longer :
          (n : ℕ) (bytes : List ℕ)
          → total + n ≤ 512
          → n ≤ length bytes
          → length (splice rx total (take n bytes)) ≡ 512
      longer n bytes fits size =
          length-splice rx (take n bytes) total (omega (arith, long, length-take n bytes)) ∙ long

      go :
          (b : Bool) (round : Outcome P.World)
          → let o = if b then round else compare_echo P port baud payload rx total s in
            o.exit ≡ exited 0
            → (round.exit ≡ exited 0 → Echoed s (take total rx) payload round.state)
            → Echoed s (take total rx) payload o.state
      go true round q h = h q
      go false round q h = compare_echo-Echoed baud payload rx total s q
