-- ===== src/Device/Lifecycle/Ledger.antt =====
-- What a device holds of libusb and of the heap, and the order in which it may be taken and asked to
-- be given back: a claimed interface needs an open handle, a handle needs a context, a context is
-- kept in allocated memory, and each is given back, under the pointer and the number it was taken
-- with, before what it rests on.
use usbmux_tool.Base.{
  ℕ, Bool, true, false, ◌&&◌, not, Option, none, some, List, [], ◌∷◌, ◌++◌, append_assoc,
  append-nil, ◌≡◌, refl, sym, ap, ◌∙◌, ℤ, int_eq, ◌==◌, if◌then◌else◌,
}
use usbmux_tool.Device.Platform.{Platform}
use usbmux_tool.Device.Lifecycle.{is_there}

-- The calls that take something, each listed when it succeeded with what it took, and the calls
-- that ask for it to be given back, listed when they are made. An interface and the driver of the
-- kernel are named by the handle and the number of the interface.
pub data LibCall : Type 0 where
  allocated freed : LibCall
  initialised exited : (ctx : Option ℕ) → LibCall
  opened : (ctx handle : Option ℕ) → LibCall
  closed : (handle : Option ℕ) → LibCall
  detached attached claimed released : (handle : Option ℕ) → (number : ℤ) → LibCall

pub record Held : Type 0 where
  pub memory : Bool
  pub context : Option ℕ
  pub handle : Option ℕ
  pub driver : Option ℤ
  pub interface : Option ℤ

abbrev pub nothing : Held
nothing = record { memory = false; context = none; handle = none; driver = none; interface = none }

abbrev when : Bool → Held → Option Held
when true h = some h
when false h = none

-- A pointer is the one that is held.
abbrev pub same : Option ℕ → Option ℕ → Bool
same none q = false
same (some p) none = false
same (some p) (some q) = p == q

abbrev pub same_number : Option ℤ → ℤ → Bool
same_number none i = false
same_number (some j) i = int_eq j i

abbrev pub empty : {A : Type 0} → Option A → Bool
empty none = true
empty (some a) = false

-- `none` is a call out of order, or with another pointer or number than what is held.
unfoldable pub step : Held → LibCall → Option Held
step h allocated = when (not h.memory) (record h { memory = true })
step h (initialised c) = when (h.memory && empty h.context && is_there c) (record h { context = c })
step h (opened c p) =
    when (same h.context c && empty h.handle && is_there p) (record h { handle = p })
step h (detached p i) = when (same h.handle p && empty h.driver) (record h { driver = some i })
step h (claimed p i) = when (same h.handle p && empty h.interface) (record h { interface = some i })
step h (released p i) =
    when (same h.handle p && same_number h.interface i) (record h { interface = none })
step h (attached p i) =
    when (same h.handle p && same_number h.driver i && empty h.interface)
      (record h { driver = none })
step h (closed p) =
    when (same h.handle p && empty h.driver && empty h.interface) (record h { handle = none })
step h (exited c) = when (same h.context c && empty h.handle) (record h { context = none })
step h freed = when (h.memory && empty h.context) (record h { memory = false })

abbrev then_run : (List LibCall → Held → Option Held) → List LibCall → Option Held → Option Held
then_run run calls none = none
then_run run calls (some h) = run calls h

-- The ledger after a sequence of calls, each in order.
unfoldable pub run : List LibCall → Held → Option Held
unfolding step
run [] h = some h
run (c ∷ calls) h = elim (step h c) [ none ↦ none | some h' ↦ run calls h' ]

pub run-append :
    (xs ys : List LibCall) (h m e : Held)
    → run xs h ≡ some m
    → run ys m ≡ some e
    → run (xs ++ ys) h ≡ some e
unfolding run
run-append [] ys h m e p q = rw (some_eq h m p) q
  where
    some_eq : (a b : Held) → some a ≡ some b → a ≡ b
    some_eq a b h = cc
run-append (c ∷ xs) ys h m e p q = go (step h c) p (λ h' p'. run-append xs ys h' m e p' q)
  where
    go :
        (o : Option Held)
        → elim o as (λ _. Option Held) [ none ↦ none | some h' ↦ run xs h' ] ≡ some m
        → ((h' : Held) → run xs h' ≡ some m → run (xs ++ ys) h' ≡ some e)
        → elim o as (λ _. Option Held) [ none ↦ none | some h' ↦ run (xs ++ ys) h' ] ≡ some e
    go none p' rest = cc
    go (some h') p' rest = rest h' p'

-- libusb and the heap keep a record of these calls, in the order in which they are made and with
-- their arguments; a call that takes is in it if it succeeded, one that gives back is in it when it
-- is made, whatever it answers (the driver does not look), and a bulk transfer is none of them. A
-- successful `libusb_init` sets the context.
pub record Traced (P : Platform) : Type 0 where
  pub calls : P.World → List LibCall
  pub at_calloc :
      (w : P.World)
      → calls (P.calloc w).1 ≡ calls w ++ (if (P.calloc w).0 then allocated ∷ [] else [])
  pub at_free : (w : P.World) → calls (P.free w) ≡ calls w ++ freed ∷ []
  pub at_init :
      (w : P.World)
      → let i = P.init w in
        (calls i.world
          ≡ calls w ++ (if int_eq i.status P.success then initialised i.ctx ∷ [] else []))
        × (int_eq i.status P.success ≡ true → is_there i.ctx ≡ true)
  pub at_open :
      (c : Option ℕ) (vid pid : ℕ) (w : P.World)
      → let (h, w') = P.open_device_with_vid_pid c vid pid w in
        calls w' ≡ calls w ++ (if is_there h then opened c h ∷ [] else [])
  pub at_active :
      (h : Option ℕ) (i : ℤ) (w : P.World) → calls (P.kernel_driver_active h i w).1 ≡ calls w
  pub at_detach :
      (h : Option ℕ) (i : ℤ) (w : P.World)
      → let (ret, w') = P.detach_kernel_driver h i w in
        calls w' ≡ calls w ++ (if int_eq ret P.success then detached h i ∷ [] else [])
  pub at_claim :
      (h : Option ℕ) (i : ℤ) (w : P.World)
      → let (ret, w') = P.claim_interface h i w in
        calls w' ≡ calls w ++ (if int_eq ret P.success then claimed h i ∷ [] else [])
  pub at_release :
      (h : Option ℕ) (i : ℤ) (w : P.World)
      → calls (P.release_interface h i w).1 ≡ calls w ++ released h i ∷ []
  pub at_attach :
      (h : Option ℕ) (i : ℤ) (w : P.World)
      → calls (P.attach_kernel_driver h i w).1 ≡ calls w ++ attached h i ∷ []
  pub at_close : (h : Option ℕ) (w : P.World) → calls (P.close h w) ≡ calls w ++ closed h ∷ []
  pub at_exit : (c : Option ℕ) (w : P.World) → calls (P.exit c w) ≡ calls w ++ exited c ∷ []
  pub at_bulk :
      (h : Option ℕ) (ep : ℕ) (buf : List ℕ) (t : ℕ) (w : P.World)
      → calls (P.bulk_transfer h ep buf t w).world ≡ calls w

module _ (P : Platform) (T : Traced P) where
  -- The calls between two worlds are in order, and take the ledger from `h` to `h'`.
  pub record Moves (w w' : P.World) (h h' : Held) : Type 0 where
    pub made : List LibCall
    pub record_of : T.calls w' ≡ T.calls w ++ made
    pub in_order : run made h ≡ some h'

  pub Moves-refl : (w : P.World) (h : Held) → Moves w w h h
  unfolding run
  Moves-refl w h = record { made = []; record_of = sym (append-nil (T.calls w)); in_order = refl }

  pub Moves-trans : {w v u : P.World} {h m e : Held} → Moves w v h m → Moves v u m e → Moves w u h e
  Moves-trans {w} {h = h} {m = m} {e = e} a b = record {
    made = a.made ++ b.made;
    record_of =
        b.record_of
        ∙ ap (λ (x : List LibCall). x ++ b.made) a.record_of
        ∙ append_assoc (T.calls w) a.made b.made;
    in_order = run-append a.made b.made h m e a.in_order b.in_order;
  }

  -- One call.
  pub Moves-call :
      (c : LibCall) (w w' : P.World) (h h' : Held)
      → T.calls w' ≡ T.calls w ++ c ∷ []
      → step h c ≡ some h'
      → Moves w w' h h'
  unfolding run
  Moves-call c w w' h h' p q = record { made = c ∷ []; record_of = p; in_order = rw (q, run) refl }

  -- A call that took nothing.
  pub Moves-none : (w w' : P.World) (h : Held) → T.calls w' ≡ T.calls w ++ [] → Moves w w' h h
  unfolding run
  Moves-none w w' h p = record { made = []; record_of = p; in_order = refl }
