-- ===== src/Trap/Thread.antt =====
-- sandbox/src/trap.c: pthread_entry, dune_pthread_create and dune_clone. The `struct thread_arg` is
-- shared by parent and child: its mutex and condition are calls of the host, its `ta_tid` is read
-- from there. (The value that `rdmsrl` reads is never used, and is left out.)
pub mod Quiet
pub mod Handshake
use vmpl_apps.Base.{
  ℕ, ◌≡◌, ◌⊎◌, ◌∷◌, List, [], arith, refl, Bool, true, false, ◌!=◌, ◌==◌, if◌then◌else◌,
}
use vmpl_apps.Base.Words.{neg, has_bit}
use vmpl_apps.Base.Linux.{clone_settls, clone_parent_settid, clone_child_cleartid}
use vmpl_apps.Exec.{is_neg}
use vmpl_apps.Host.{
  Host, M, Call, Machine, pure, ret, ◌>>=◌, ◌>>◌, ask, tell, neg_errno, enter, gettid, cond_init,
  mutex_init, pthread_create, cond_wait, cond_signal, mutex_destroy, cond_destroy, arg_lock,
  arg_unlock, publish_tid, set_tid_address, jump_to_user, sys_exit, store, get_user_fs, set_user_fs,
  clone,
}
use vmpl_apps.Trap.Frame.{Tf}

module _ (h : Host) where
  when : Bool → M (Unit {0}) → M (Unit {0})
  when b m = if b then m else pure tt

  do_enter_thread : (rip rsp rax : ℕ) → M (Unit {0})
  do_enter_thread rip rsp rax = do rc ← ask h (jump_to_user rip rsp rax); tell h (sys_exit rc)

  -- The child: a copy of the frame with `rax` 0 and its own stack.
  pub pthread_entry : Tf → M (Unit {0})
  unfolding when do_enter_thread
  pthread_entry tf = do
    tell h enter
    tid ← ask h gettid
    when (has_bit tf.arg0 clone_settls) (tell h (set_user_fs tf.arg4))
    when (has_bit tf.arg0 clone_parent_settid) (tell h (store tf.arg2 tid))
    when (has_bit tf.arg0 clone_child_cleartid) (tell h (set_tid_address tf.arg3))
    tell h arg_lock
    tell h (publish_tid tid)
    tell h arg_unlock
    tell h cond_signal
    do_enter_thread tf.rip tf.arg1 0

  read_tid : M ℕ
  read_tid s = ret (h.ta_tid s.log) s

  -- The parent, once the child runs.
  wait_for_child : M ℕ
  unfolding when read_tid
  wait_for_child = do
    tell h arg_lock
    tid ← read_tid
    when (tid == 0) (tell h cond_wait)
    tell h arg_unlock
    tell h mutex_destroy
    tell h cond_destroy
    read_tid

  pub dune_pthread_create : Tf → M ℕ
  unfolding wait_for_child
  dune_pthread_create tf = do
    r ← ask h cond_init
    if r != 0 then pure (neg 1) else do
      r' ← ask h mutex_init
      if r' != 0
          then pure (neg 1)
          else do r'' ← ask h pthread_create; if r'' != 0 then pure (neg 1) else wait_for_child

  pub dune_clone : Tf → M ℕ
  unfolding dune_pthread_create when
  dune_clone tf = if tf.arg1 != 0 then dune_pthread_create tf else do
    fs ← ask h get_user_fs
    rc ← ask h (clone tf.arg0 tf.arg1 tf.arg2 tf.arg3 tf.arg4)
    if is_neg rc
        then neg_errno h
        else do when (rc == 0) (do tell h enter; tell h (set_user_fs fs)); pure rc
