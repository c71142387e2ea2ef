-- ===== src/Trap/Thread/Quiet.antt =====
-- Creating a thread or a process touches no memory of the application by a call of the kernel, nor
-- _syscall_mtx, and returns a word.
use vmpl_apps.Base.{arith}
use vmpl_apps.Host.{Platform, Host, Machine, machine_of}
use vmpl_apps.Host.Stays.{Stays}
use vmpl_apps.Host.Mutex.{mutex, Lockless}
use vmpl_apps.Host.Replies.{IsWord, IsWordHost}
use vmpl_apps.Umm.Confined.{IsGood}
use vmpl_apps.Trap.Frame.{Tf}
use vmpl_apps.Trap.Thread.{dune_clone}

module _ (pl : Platform) (h : Host) where
  pub dune_clone-IsGood :
      (tf : Tf) (s : Machine) → IsGood pl s → IsGood pl (machine_of (dune_clone h tf s))
  unfolding dune_clone
  dune_clone-IsGood tf s g = ground arith

pub dune_clone-Lockless : (h : Host) (tf : Tf) → Lockless (dune_clone h tf)
unfolding Lockless Stays mutex dune_clone
dune_clone-Lockless h tf v s i = ground arith

pub dune_clone-IsWord :
    (h : Host) → IsWordHost h → (tf : Tf) (s : Machine) → IsWord (dune_clone h tf s)
unfolding dune_clone
dune_clone-IsWord h w tf s = grind (arith, w.reply_lem, w.tid_lem)
