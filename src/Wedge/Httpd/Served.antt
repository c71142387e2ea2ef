-- ===== src/Wedge/Httpd/Served.antt =====
-- What the client of a connection gets.
use vmpl_apps.Base.{
  ℕ, zero, suc, ◌+◌, ◌-◌, ◌≤◌, ◌<◌, ◌^◌, ◌≡◌, ◌≢◌, ◌⊎◌, refl, sym, ◌∙◌, true, false, some, List, [],
  ◌∷◌, ◌++◌, length, ◌||◌, ◌==◌, ◌!=◌, arith, inl, inr,
}
use mathlib.Core.List.{append-nil, append_assoc}
use vmpl_apps.Base.Words.{low32}
use vmpl_apps.Sthread.{is_negative}
use vmpl_apps.Wedge.Httpd.{
  Os, take, starts_with, get_root, header, send_file, answer, do_handle_dude,
}
use vmpl_apps.Wedge.Httpd.Chunks.{drop, take-all, take-drop, length-take, length-drop}
use vmpl_apps.Wedge.Httpd.Request.{is_get_lem}

-- A connection `s` on which `request` has come, and a file of the bytes `content`. `sent` is what the
-- client has got, `behind` what of the file is not read yet, `held` the descriptors of the file.
pub record IsConnection (os : Os) (s : ℕ) (request content : List ℕ) (st : os.State) : Type 0 where
  pub sent : os.State → List ℕ
  pub behind : os.State → List ℕ
  pub held : os.State → ℕ
  pub fd : ℕ
  pub read_request :
      ((os.read s 4095 st).1 ≡ length request)
      × ((os.read s 4095 st).2 ≡ request)
      × (sent (os.read s 4095 st).0 ≡ sent st)
      × (held (os.read s 4095 st).0 ≡ held st)
  pub write_all :
      (bytes : List ℕ) (st' : os.State)
      → ((os.write s bytes st').1 ≡ length bytes)
        × (sent (os.write s bytes st').0 ≡ sent st' ++ bytes)
        × (behind (os.write s bytes st').0 ≡ behind st')
        × (held (os.write s bytes st').0 ≡ held st')
  pub opens :
      (st' : os.State)
      → ((os.open_index st').1 ≡ fd)
        × (sent (os.open_index st').0 ≡ sent st')
        × (behind (os.open_index st').0 ≡ content)
        × (held (os.open_index st').0 ≡ held st' + 1)
  pub read_file :
      (st' : os.State)
      → ((os.read fd 4096 st').1 ≡ length (take 4096 (behind st')))
        × ((os.read fd 4096 st').2 ≡ take 4096 (behind st'))
        × (sent (os.read fd 4096 st').0 ≡ sent st')
        × (behind (os.read fd 4096 st').0 ≡ drop 4096 (behind st'))
        × (held (os.read fd 4096 st').0 ≡ held st')
  pub closes :
      (st' : os.State)
      → 0 < held st'
      → (sent (os.close fd st') ≡ sent st') × (held (os.close fd st') + 1 ≡ held st')
  pub fd_lem : fd ≢ 2 ^ 32 - 1
  pub request_lem : length request ≤ 4095

-- The tests of a count that is neither 0 nor an error.
counted : (n : ℕ) → 0 < n → n ≤ 4096 → (n == 0 || is_negative n) ≡ false
counted n pos small = ground arith

same-false : (n : ℕ) → (n != n) ≡ false
same-false n = ground arith

named : (fd : ℕ) → fd ≢ 2 ^ 32 - 1 → (fd == 2 ^ 32 - 1) ≡ false
named fd n = ground arith

nonempty : (l : List ℕ) → starts_with get_root l ≡ true → 0 < length l
unfolding starts_with
nonempty [] e = ground arith
nonempty (x ∷ l) e = omega arith

-- For any length, so that the length of a buffer is not counted down.
spent-or : (n : ℕ) → 0 < n → (l : List ℕ) → (l ≡ []) ⊎ (0 < length (take n l))
unfolding take
spent-or zero pos l = absurd (omega arith)
spent-or (suc n) pos [] = inl refl
spent-or (suc n) pos (x ∷ l) = inr (omega arith)

module _ (os : Os) (s : ℕ) (request content : List ℕ) (st : os.State)
    (conn : IsConnection os s request content st) where
  abbrev chunk : os.State → List ℕ
  chunk st' = take 4096 (conn.behind st')

  -- Behind one round.
  abbrev sent_chunk : os.State → os.State
  sent_chunk st' = (os.write s (chunk st') (os.read conn.fd 4096 st').0).0

  chunk_lem : (st' : os.State) → low32 (length (chunk st')) ≡ length (chunk st')
  chunk_lem st' = omega (arith, length-take 4096 (conn.behind st'))

  send_file-last :
      (rounds : ℕ) (st' : os.State)
      → conn.behind st' ≡ []
      → send_file os (suc rounds) s conn.fd st'
        ≡ some (os.close conn.fd (os.read conn.fd 4096 st').0)
  unfolding send_file take
  send_file-last rounds st' e = rw ((conn.read_file st').0, e) refl

  send_file-more :
      (rounds : ℕ) (st' : os.State)
      → 0 < length (chunk st')
      → send_file os (suc rounds) s conn.fd st' ≡ send_file os rounds s conn.fd (sent_chunk st')
  unfolding send_file
  send_file-more rounds st' pos =
      rw
        (
          (conn.read_file st').0,
          (conn.read_file st').1,
          chunk_lem st',
          take-all (chunk st'),
          (conn.write_all (chunk st') (os.read conn.fd 4096 st').0).0,
          counted (length (chunk st')) pos (length-take 4096 (conn.behind st')),
          same-false (length (chunk st')),
        )
        refl

  -- What is left of the file is sent, and the file is closed.
  send_file-sent :
      (rounds : ℕ) (st' : os.State)
      → length (conn.behind st') < rounds
      → 0 < conn.held st'
      → (st'' : os.State) × (send_file os rounds s conn.fd st' ≡ some st'')
        × (conn.sent st'' ≡ conn.sent st' ++ conn.behind st')
        × (conn.held st'' + 1 ≡ conn.held st')
  send_file-sent zero st' lt one = absurd (omega arith)
  send_file-sent (suc rounds) st' lt one = elim (spent-or 4096 (omega arith) (conn.behind st')) [
    | inl e ↦
        let read = (os.read conn.fd 4096 st').0 in
        let last = conn.closes read (omega (arith, (conn.read_file st').4)) in
        (
          os.close conn.fd read,
          send_file-last rounds st' e,
          last.0 ∙ (conn.read_file st').2 ∙ rw e (sym (append-nil (conn.sent st'))),
          last.1 ∙ (conn.read_file st').4,
        )
    | inr pos ↦
        let read = (os.read conn.fd 4096 st').0 in
        let written = conn.write_all (chunk st') read in
        let left : conn.behind (sent_chunk st') ≡ drop 4096 (conn.behind st') =
          written.2 ∙ (conn.read_file st').3 in
        let (st'', runs, sent, held) =
          send_file-sent rounds (sent_chunk st')
            (rw left (omega (arith, length-drop 4096 (conn.behind st'))))
            (omega (arith, written.3, (conn.read_file st').4)) in
        (
          st'',
          send_file-more rounds st' pos ∙ runs,
          sent
              ∙ rw (left, written.1, (conn.read_file st').2)
                  (simp (append_assoc, take-drop 4096 (conn.behind st'))),
          held ∙ written.3 ∙ (conn.read_file st').4,
        )
  ]

  -- Behind the header: the whole file.
  answer-sent :
      (rounds : ℕ) (st' : os.State)
      → length content < rounds
      → (st'' : os.State) × (answer os rounds s st' ≡ some st'')
        × (conn.sent st'' ≡ conn.sent st' ++ content)
        × (conn.held st'' ≡ conn.held st')
  unfolding answer
  answer-sent rounds st' lt =
      let (same_fd, same_sent, whole, one_more) = conn.opens st' in
      let opened = (os.open_index st').0 in
      let (st'', runs, sent, held) =
        send_file-sent rounds opened (rw whole lt) (omega (arith, one_more)) in
      (
        st'',
        rw (same_fd, named conn.fd conn.fd_lem) runs,
        sent ∙ rw (same_sent, whole) refl,
        omega (arith, held, one_more),
      )

  received_lem : low32 (length request) ≡ length request
  received_lem = omega (arith, conn.request_lem)

  do_handle_dude-answers :
      (rounds : ℕ)
      → starts_with get_root request ≡ true
      → do_handle_dude os rounds s st
        ≡ answer os rounds s (os.write s header (os.read s 4095 st).0).0
  unfolding do_handle_dude
  do_handle_dude-answers rounds e =
      rw
        (
          conn.read_request.0,
          conn.read_request.1,
          received_lem,
          take-all request,
          counted (length request) (nonempty request e) (omega (arith, conn.request_lem)),
          is_get_lem request,
          e,
          (conn.write_all header (os.read s 4095 st).0).0,
        )
        refl

  -- On a connection (IsConnection) whose first read gives a request of at most 4095 bytes that
  -- begins with GET / HTTP/, with a file that is read in turn and writes that take all: in more
  -- rounds than the file has bytes do_handle_dude returns, the client has got the header and
  -- then the whole file, and no more files are held than before.
  pub do_handle_dude-sent :
      (rounds : ℕ)
      → length content < rounds
      → starts_with get_root request ≡ true
      → (st' : os.State) × (do_handle_dude os rounds s st ≡ some st')
        × (conn.sent st' ≡ conn.sent st ++ header ++ content)
        × (conn.held st' ≡ conn.held st)
  do_handle_dude-sent rounds lt e =
      let read = (os.read s 4095 st).0 in
      let (st', runs, sent, held) = answer-sent rounds (os.write s header read).0 lt in
      let (_, more, _, same_held) = conn.write_all header read in
      (
        st',
        do_handle_dude-answers rounds e ∙ runs,
        sent ∙ rw (more, conn.read_request.2) refl,
        held ∙ same_held ∙ conn.read_request.3,
      )
