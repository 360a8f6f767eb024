-- ===== src/Device/Along.antt =====
-- A call on an open device reaches the world by bulk transfers only, and of the device it changes
-- the sequence number only. So whatever bulk transfers keep is kept by every call.
use usbmux_tool.Base.{ℕ, Option, none, some, List, ◌≡◌, refl, ◌∙◌, Ret, ok, err, fault}
use usbmux_tool.Device.Platform.{Platform}
use usbmux_tool.Device.State.{Device, State, Call, continue, bump, next_seq}

-- A relation between worlds that is reflexive and transitive and holds along a bulk transfer.
pub record Kept (P : Platform) : Type 1 where
  pub Rel : P.World → P.World → Type 0
  pub same : (w : P.World) → Rel w w
  pub chain : (u v w : P.World) → Rel u v → Rel v w → Rel u w
  pub bulk :
      (h : Option ℕ) (ep : ℕ) (buf : List ℕ) (t : ℕ) (w : P.World)
      → Rel w (P.bulk_transfer h ep buf t w).world

-- The worlds that bulk transfers lead to from `w`.
pub data Transfers (P : Platform) (w : P.World) : P.World → Type 0 where
  no_transfer : Transfers P w w
  one_more :
      (h : Option ℕ) (ep : ℕ) (buf : List ℕ) (t : ℕ) {v : P.World}
      → Transfers P w v
      → Transfers P w (P.bulk_transfer h ep buf t v).world

pub Transfers-trans :
    (P : Platform) (u v w : P.World) → Transfers P u v → Transfers P v w → Transfers P u w
Transfers-trans P u v w p no_transfer = p
Transfers-trans P u v w p (one_more h ep buf t q) =
    one_more h ep buf t (Transfers-trans P u v _ p q)

-- It is the smallest such relation.
abbrev pub transfers_kept : (P : Platform) → Kept P
transfers_kept P = record {
  Rel = Transfers P;
  same = λ w. no_transfer;
  chain = Transfers-trans P;
  bulk = λ h ep buf t w. one_more h ep buf t no_transfer;
}

-- A device without its sequence number.
abbrev pub parts : Option Device → Option Device
parts none = none
parts (some d) = some (record d { next_seq = 0 })

module _ (P : Platform) (K : Kept P) where
  -- From one state to a later one.
  pub record Along (s s' : State P.World) : Type 0 where
    pub world : K.Rel s.world s'.world
    pub device : parts s'.device ≡ parts s.device

  pub Along-refl : (s : State P.World) → Along s s
  Along-refl s = record { world = K.same s.world; device = refl }

  pub Along-trans : (s t u : State P.World) → Along s t → Along t u → Along s u
  Along-trans s t u a b = record {
    world = K.chain s.world t.world u.world a.world b.world;
    device = b.device ∙ a.device;
  }

  -- A call that goes along, in every state.
  abbrev pub Goes : {A : Type 0} → Call P.World A → Type 0
  Goes m = (s : State P.World) → Along s (m s).1

  pub continue-Along :
      {A B : Type 0} (s : State P.World) (r : Ret A × State P.World) (f : A → Call P.World B)
      → Along s r.1
      → ((a : A) → Goes (f a))
      → Along s (continue r.0 f r.1).1
  continue-Along s (ok a, t) f h g = Along-trans s t (f a t).1 h (g a t)
  continue-Along s (err e, t) f h g = h
  continue-Along s (fault, t) f h g = h

  pub next_seq-Along : (s : State P.World) → Along s (next_seq s).1
  unfolding next_seq bump
  next_seq-Along s = go s.device refl
    where
      go : (o : Option Device) → s.device ≡ o → Along s (next_seq s).1
      go none e = rw e (record { world = K.same s.world; device = refl })
      go (some d) e = rw e (record { world = K.same s.world; device = refl })
