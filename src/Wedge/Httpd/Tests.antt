-- ===== src/Wedge/Httpd/Tests.antt =====
-- A server that has one connection and one file, and the witnesses.
use vmpl_apps.Base.{
  ℕ, ◌+◌, ◌-◌, ◌≡◌, refl, Bool, true, some, List, [], ◌++◌, length, ◌==◌, if◌then◌else◌, arith,
}
use vmpl_apps.Sthread.Perms.{Sc, sc_init, sc_fd_add, fd_entry, put_in_free, sc_sys_add}
use vmpl_apps.Sthread.Tags.{smalloc}
use vmpl_apps.Sthread.Kernel.{Kernel, Sthread, ret, kmalloc, thread_at, put_thread}
use vmpl_apps.Sthread.Handler.{Exit}
use vmpl_apps.Sthread.Master.{sthread_create}
use vmpl_apps.Sthread.Samples.{world, kernel}
use vmpl_apps.Wedge.Httpd.{
  Os, codes, take, header, get_root, starts_with, until, is_get, send_file, answer, do_handle_dude,
  connection_sc, handle_dude_sthread,
}
use vmpl_apps.Wedge.Httpd.Chunks.{drop}
use vmpl_apps.Wedge.Httpd.Served.{IsConnection, do_handle_dude-sent}
use vmpl_apps.Wedge.Httpd.Rights.{IsConnectionOnly, handle_dude_sthread-IsConnectionOnly}

record Server : Type 0 where
  got : List ℕ
  rest : List ℕ
  fds : ℕ

abbrev request : List ℕ
request = codes "GET / HTTP/1.0\r\n\r\n"

abbrev page : List ℕ
page = codes "<html>hi</html>"

-- The connection is 4, the file 5.
abbrev server : Os
server = record {
  State = Server;
  read = λ fd len st.
      if fd == 4
      then (st, length request, request)
      else (record st { rest = drop len st.rest }, length (take len st.rest), take len st.rest);
  write = λ fd bytes st. (record st { got = st.got ++ bytes }, length bytes);
  open_index = λ st. (record st { rest = page; fds = st.fds + 1 }, 5);
  close = λ fd st. record st { fds = st.fds - 1 };
}

abbrev idle : Server
idle = record { got = []; rest = []; fds = 0 }

serves : do_handle_dude server 3 4 idle ≡ some (record { got = header ++ page; rest = []; fds = 0 })
unfolding do_handle_dude answer send_file take drop is_get until starts_with
serves = refl

refuses : is_get (codes "POST / HTTP/1.0") ≡ Bool.false
unfolding is_get until starts_with
refuses = refl

connection : IsConnection server 4 request page idle
connection = record {
  sent = λ st. st.got;
  behind = λ st. st.rest;
  held = λ st. st.fds;
  fd = 5;
  read_request = (refl, refl, refl, refl);
  write_all = λ bytes st. (refl, refl, refl, refl);
  opens = λ st. (refl, refl, refl, refl);
  read_file = λ st. (refl, refl, refl, refl, refl);
  closes = λ st one. (refl, omega arith);
  fd_lem = omega arith;
  request_lem = omega arith;
}

is_get_root : starts_with get_root request ≡ true
unfolding starts_with
is_get_root = refl

do_handle_dude-sent_example :
    (st : Server) × (do_handle_dude server 16 4 idle ≡ some st)
    × (st.got ≡ [] ++ header ++ page)
    × (st.fds ≡ 0)
unfolding connection
do_handle_dude-sent_example =
    do_handle_dude-sent server 4 request page idle connection 16 (omega arith) is_get_root

-- The memory before sc_init.
abbrev garbage : Sc
garbage = record { sc_mem = []; sc_fd = []; sc_sys = [] }

-- Descriptor 4 in a fresh compartment.
abbrev served_by :
    (e : Exit) × (k : Kernel) × (handle_dude_sthread world 0x400900 4 garbage kernel ≡ ret (1, e) k)
unfolding handle_dude_sthread connection_sc sc_init sc_fd_add fd_entry put_in_free sc_sys_add
    sthread_create kmalloc smalloc put_thread
served_by = (_, _, refl)

handle_dude_sthread-IsConnectionOnly_example :
    (t : Sthread) × (thread_at served_by.1.ks_current served_by.1.ks_sthreads ≡ some t)
    × (t.st_id ≡ 1)
    × IsConnectionOnly 4 t.st_sc
handle_dude_sthread-IsConnectionOnly_example =
    handle_dude_sthread-IsConnectionOnly world 0x400900 4 1 served_by.0 garbage kernel served_by.1
      (omega arith) served_by.2
