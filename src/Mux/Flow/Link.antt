-- ===== src/Mux/Flow/Link.antt =====
-- One direction of a stream: the sender's `SendWindow`, the receiver's `RecvWindow`, and what is on
-- its way between them. The steps are the calls that connection.rs makes on the two windows:
-- `poll_transmit`, `on_data`, `recv_msg` and `on_window_update`.
use tunnel_weaver.Base.{
  ℕ, ◌+◌, ◌-◌, ◌≤◌, ◌≡◌, ap, List, [], ◌∷◌, ◌++◌, true, Option, none, some, sum, sum-append, IsU32,
  arith,
}
use tunnel_weaver.Mux.Flow.SendWindow
use tunnel_weaver.Mux.Flow.SendWindow.{SendWindow}
use tunnel_weaver.Mux.Flow.RecvWindow
use tunnel_weaver.Mux.Flow.RecvWindow.{RecvWindow}

pub record Link : Type 0 where
  pub send : SendWindow
  pub recv : RecvWindow
  pub wire : List ℕ  -- the DATA payloads on their way, by length, the oldest first
  pub held : ℕ  -- wire bytes of what the receiver has and its application has not taken
  pub grants : List ℕ  -- the WINDOW_UPDATE credits on their way, the oldest first

abbrev pub start : ℕ → Link
start w = record {
  send = SendWindow.new w;
  recv = RecvWindow.new w;
  wire = [];
  held = 0;
  grants = [];
}

abbrev pub to_list : Option ℕ → List ℕ
to_list none = []
to_list (some c) = c ∷ []

pub data Step : Link → Link → Type 0 where
  transmit :
      (l : Link) (n : ℕ)
      → n ≤ l.send.credit
      → Step l (record l { send = SendWindow.consume l.send n; wire = l.wire ++ (n ∷ []) })
  deliver :
      (l : Link) (n : ℕ) (rest : List ℕ)
      → l.wire ≡ n ∷ rest
      → Step l (record l { recv = (RecvWindow.on_data l.recv n).0; wire = rest; held = l.held + n })
  consume :
      (l : Link) (n : ℕ)
      → n ≤ l.held
      → Step l (record l {
        recv = (RecvWindow.on_consumed l.recv n).0;
        held = l.held - n;
        grants = l.grants ++ to_list (RecvWindow.on_consumed l.recv n).1;
      })
  granted :
      (l : Link) (c : ℕ) (rest : List ℕ)
      → l.grants ≡ c ∷ rest
      → Step l (record l { send = SendWindow.grant l.send c; grants = rest })

pub data Reach (s : Link) : Link → Type 0 where
  here : Reach s s
  next : {t u : Link} → Reach s t → Step t u → Reach s u

-- Every byte of the window is in exactly one place.
pub record IsConserved (w : ℕ) (l : Link) : Type 0 where
  pub window_is : l.recv.window ≡ w
  pub total : l.send.credit + sum l.wire + l.held + l.recv.consumed_since_update + sum l.grants ≡ w
  pub allowed : l.recv.remaining ≡ l.send.credit + sum l.wire + sum l.grants
  pub pending : l.recv.consumed_since_update + l.recv.consumed_since_update ≤ w

start-IsConserved : (w : ℕ) → IsConserved w (start w)
unfolding SendWindow.new RecvWindow.new
start-IsConserved w = omega arith

Step-IsConserved : {w : ℕ} {l m : Link} → IsU32 w → Step l m → IsConserved w l → IsConserved w m
unfolding SendWindow.consume RecvWindow.on_data RecvWindow.on_consumed SendWindow.grant
Step-IsConserved hw (transmit l n h) c = ground (arith, sum-append l.wire (n ∷ []))
Step-IsConserved hw (deliver l n rest e) c = ground (arith, ap sum e)
Step-IsConserved hw (consume l n h) c =
    ground
      (arith, sum-append l.grants ((l.recv.consumed_since_update + n) ∷ []), sum-append l.grants [])
Step-IsConserved hw (granted l n rest e) c = ground (arith, ap sum e)

Reach-IsConserved : {w : ℕ} {l : Link} → IsU32 w → Reach (start w) l → IsConserved w l
Reach-IsConserved {w} hw here = start-IsConserved w
Reach-IsConserved hw (next r s) = Step-IsConserved hw s (Reach-IsConserved hw r)

-- However transmissions, deliveries, reads and updates interleave from a fresh 32-bit window, the
-- receiver never refuses the next DATA payload as a flow control violation.
pub Reach-on_data :
    (w : ℕ) {l : Link} (n : ℕ) (rest : List ℕ)
    → IsU32 w
    → Reach (start w) l
    → l.wire ≡ n ∷ rest
    → (RecvWindow.on_data l.recv n).1 ≡ true
unfolding RecvWindow.on_data
Reach-on_data w {l} n rest hw r e = ground (arith, Reach-IsConserved hw r, ap sum e)

-- Once everything sent has arrived, been read and been acknowledged, the sender holds at least half
-- of the window again, whatever happened before: credit is never lost.
pub Reach-credit :
    (w : ℕ) {l : Link}
    → IsU32 w
    → Reach (start w) l
    → l.wire ≡ []
    → l.held ≡ 0
    → l.grants ≡ []
    → w ≤ l.send.credit + l.send.credit
Reach-credit w {l} hw r e f g = omega (arith, Reach-IsConserved hw r, ap sum e, ap sum g)
