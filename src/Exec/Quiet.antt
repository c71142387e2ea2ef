-- ===== src/Exec/Quiet.antt =====
-- exec.c touches no memory of the application by a call of the kernel, nor _syscall_mtx,
-- and returns a word.
use vmpl_apps.Base.{ℕ, ◌≡◌, refl, arith}
use vmpl_apps.Host.{Platform, Host, Machine, machine_of}
use vmpl_apps.Host.Stays.{Stays}
use vmpl_apps.Host.Mutex.{mutex, Lockless}
use vmpl_apps.Host.Replies.{IsWord, IsWordHost}
use vmpl_apps.Umm.Confined.{IsGood}
use vmpl_apps.Exec.{Plan, refused, launch, overrun, exec_execev, run_plan, read_first, array_of}

module _ (pl : Platform) (h : Host) where
  run_plan-IsGood :
      (p : Plan) (envp : ℕ) (s : Machine)
      → IsGood pl s
      → IsGood pl (machine_of (run_plan h p envp s))
  unfolding run_plan
  run_plan-IsGood refused envp s g = g
  run_plan-IsGood overrun envp s g = g
  run_plan-IsGood (launch argv page) envp s g = ground arith

  pub exec_execev-IsGood :
      (filename argv envp : ℕ) (s : Machine)
      → IsGood pl s
      → IsGood pl (machine_of (exec_execev h filename argv envp s))
  unfolding exec_execev read_first array_of
  exec_execev-IsGood filename argv envp s g = grind (arith, run_plan-IsGood)

module _ (h : Host) where
  run_plan-Lockless : (p : Plan) (envp : ℕ) → Lockless (run_plan h p envp)
  unfolding Lockless Stays mutex run_plan
  run_plan-Lockless refused envp v s i = i
  run_plan-Lockless overrun envp v s i = i
  run_plan-Lockless (launch argv page) envp v s i = ground arith

  -- The same, without `Lockless`.
  run_plan-same :
      (p : Plan) (envp : ℕ) (s : Machine)
      → mutex (machine_of (run_plan h p envp s)).log ≡ mutex s.log
  unfolding Lockless Stays
  run_plan-same p envp s = run_plan-Lockless p envp (mutex s.log) s refl

  pub exec_execev-Lockless : (filename argv envp : ℕ) → Lockless (exec_execev h filename argv envp)
  unfolding Lockless Stays mutex exec_execev read_first array_of
  exec_execev-Lockless filename argv envp v s i = grind (arith, run_plan-same)

  run_plan-IsWord :
      IsWordHost h → (p : Plan) (envp : ℕ) (s : Machine) → IsWord (run_plan h p envp s)
  unfolding run_plan
  run_plan-IsWord w refused envp s = ground arith
  run_plan-IsWord w overrun envp s = ground arith
  run_plan-IsWord w (launch argv page) envp s = grind (arith, w.reply_lem)

  pub exec_execev-IsWord :
      IsWordHost h
      → (filename argv envp : ℕ) (s : Machine) → IsWord (exec_execev h filename argv envp s)
  unfolding exec_execev read_first array_of
  exec_execev-IsWord w filename argv envp s = grind (arith, run_plan-IsWord w)
