-- ===== src/Bench/Ipi.antt =====
-- bench/src/posted_ipi.c, bench_dune_ipi.c and bench_fork_ipi.c: a sender and a receiver of interrupts
-- that wait for each other on the flags t2_ready, wait and done. In the first two programs they are
-- threads of one process, in the third they are two processes. The pinning to cores, the times and
-- the output are left out. (In posted_ipi.c main enters before it makes the receiver; here they start
-- together.)
pub mod Counts
pub mod Ends
pub mod Forked
mod Runs
use vmpl_apps.Base.{ℕ, zero, suc, ◌+◌, ◌≡◌, ◌⊎◌, Bool, true, false, if◌then◌else◌}

-- The next thing that t1_start does (in posted_ipi.c, main): it calls dune_enter; it spins at `awaits` until t2_ready, and
-- at `spins` until `wait` is cleared; `tests` is the condition of its loop.
pub data Sender : Type 0 where
  enters awaits tests spins resets ended : Sender

-- The next thing that t2_start does; it spins at `idles` until `done`.
pub data Receiver : Type 0 where
  enters readies idles ended : Receiver

-- The next thing that test_handler does, which runs on the receiver's processor and holds it up.
pub data Handler : Type 0 where
  outside to_eoi to_clear : Handler

-- Each flag has one reader, and the flag is that reader's copy: t2_ready and `wait` are read by the
-- sender, and `done` by the receiver. `left` is what is left of NUM_ITERATIONS, `pending` the bit of the
-- vector in the receiver's interrupt controller, and `handled` how often test_handler has cleared `wait`.
pub record Ipi : Type 0 where
  pub sender : Sender
  pub left : ℕ
  pub receiver : Receiver
  pub handler : Handler
  pub pending : Bool
  pub t2_ready : Bool
  pub wait : Bool
  pub done : Bool
  pub handled : ℕ

abbrev pub initial : (iterations : ℕ) → Ipi
initial n = record {
  sender = Sender.enters;
  left = n;
  receiver = Receiver.enters;
  handler = Handler.outside;
  pending = Bool.false;
  t2_ready = Bool.false;
  wait = Bool.true;
  done = Bool.false;
  handled = 0;
}

-- What the reader has behind a write of the other: after a fork each has its own copy.
abbrev pub arrives : (forked old new : Bool) → Bool
arrives forked old new = if forked then old else new

-- `fails` is whether dune_enter may fail, upon which the thread ends. A spin is a step only where it
-- ends. An interrupt waits until the handler is registered, and until
-- the one before has been handled; one that is sent while another is pending is lost.
pub data Step (fails forked : Bool) (s : Ipi) : Ipi → Type 0 where
  begins : s.sender ≡ Sender.enters → Step fails forked s (record s { sender = Sender.awaits })
  sender_fails :
      fails ≡ true
      → s.sender ≡ Sender.enters
      → Step fails forked s (record s { sender = Sender.ended })
  receiver_fails :
      fails ≡ true
      → s.receiver ≡ Receiver.enters
      → Step fails forked s (record s { receiver = Receiver.ended })
  sees_ready :
      s.sender ≡ Sender.awaits
      → s.t2_ready ≡ true
      → Step fails forked s (record s { sender = Sender.tests })
  sends :
      (k : ℕ)
      → s.sender ≡ Sender.tests
      → s.left ≡ suc k
      → Step fails forked s (record s { sender = Sender.spins; left = k; pending = Bool.true })
  sees_clear :
      s.sender ≡ Sender.spins
      → s.wait ≡ false
      → Step fails forked s (record s { sender = Sender.resets })
  sets_wait :
      s.sender ≡ Sender.resets
      → Step fails forked s (record s { sender = Sender.tests; wait = Bool.true })
  finishes :
      s.sender ≡ Sender.tests
      → s.left ≡ 0
      → Step fails forked s
          (record s { sender = Sender.ended; done = arrives forked s.done Bool.true })
  registers :
      s.receiver ≡ Receiver.enters → Step fails forked s (record s { receiver = Receiver.readies })
  tells_ready :
      s.receiver ≡ Receiver.readies
      → s.handler ≡ Handler.outside
      → Step fails forked s
          (record s { receiver = Receiver.idles; t2_ready = arrives forked s.t2_ready Bool.true })
  leaves :
      s.receiver ≡ Receiver.idles
      → s.handler ≡ Handler.outside
      → s.done ≡ true
      → Step fails forked s (record s { receiver = Receiver.ended })
  interrupts :
      s.pending ≡ true
      → s.handler ≡ Handler.outside
      → s.receiver ≡ Receiver.readies ⊎ s.receiver ≡ Receiver.idles
      → Step fails forked s (record s { pending = Bool.false; handler = Handler.to_eoi })
  sends_eoi :
      s.handler ≡ Handler.to_eoi → Step fails forked s (record s { handler = Handler.to_clear })
  clears :
      s.handler ≡ Handler.to_clear
      → Step fails forked s (record s {
        handler = Handler.outside;
        wait = arrives forked s.wait Bool.false;
        handled = s.handled + 1;
      })

-- The threads of posted_ipi.c and of bench_dune_ipi.c, and the processes of bench_fork_ipi.c.
abbrev pub PostedIpi : (fails : Bool) → Ipi → Ipi → Type 0
PostedIpi fails = Step fails Bool.false

abbrev pub ForkIpi : (fails : Bool) → Ipi → Ipi → Type 0
ForkIpi fails = Step fails Bool.true

pub data Reach (fails forked : Bool) (n : ℕ) : Ipi → Type 0 where
  start : Reach fails forked n (initial n)
  later : {s t : Ipi} → Reach fails forked n s → Step fails forked s t → Reach fails forked n t
