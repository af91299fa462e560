-- ===== src/Disk/Ide/Transfer.antt =====
-- `ide_read` on a drive that answers.
use project_luciano.Base.{
  ℕ, zero, suc, ◌+◌, ◌-◌, ◌*◌, ◌^◌, ◌≤◌, ◌<◌, min, ◌≡◌, refl, sym, ap, ◌∙◌, ◌⊎◌, inl, inr, true,
  false, Option, some, List, [], ◌∷◌, ◌++◌, arith, ltb, Bool-cases, length, length-append,
}
use project_luciano.Base.Int.{pos}
use project_luciano.Libc.{Bytes}
use project_luciano.Disk.Ide.{
  Private, Drive, read_sectors, request, transfer, ide_read, ide_get_sector_count, count_sectors,
}
use project_luciano.Disk.Ide.Ports.{
  Io, ready, has_err, is_ready, port_in, status_offset, wait_data, settled, read_words, and_then,
  Cmd, pure, master, slave,
}
use project_luciano.Disk.Ide.Request.{IsRequest, request-IsRequest, read_limit_lem}

-- The drive never reports an error, and whenever its status is read, it has data at one of the next
-- `p` reads.
pub record IsResponsive (device : ℕ → ℕ → ℕ) (channel p : ℕ) : Type 0 where
  pub no_err : (n : ℕ) → has_err (device n (channel + status_offset)) ≡ false
  pub soon :
      (n : ℕ) → (j : ℕ) × (j < p) × (is_ready (device (n + j) (channel + status_offset)) ≡ true)

abbrev later : Io → ℕ → Io
later s n = record s { reads = s.reads + n }

later-later : (s : Io) (a b : ℕ) → later (later s a) b ≡ later s (a + b)
later-later s a b = ap (λ (x : ℕ). record s { reads = x }) (omega arith)

later-zero : (s : Io) → later s 0 ≡ s
later-zero s = ap (λ (x : ℕ). record s { reads = x }) (omega arith)

-- A command that runs gives way to the next.
runs-next :
    {A B : Type 0} (k : A → Cmd B) {o : Option (A × Io)} {t : Io} {a : A} {r : Option (B × Io)}
    → o ≡ some (a, t)
    → k a t ≡ r
    → and_then o k ≡ r
runs-next k e f = ap (λ u. and_then u k) e ∙ f

wait-ready :
    (device : ℕ → ℕ → ℕ) (channel p n j : ℕ) (s : Io)
    → IsResponsive device channel p
    → is_ready (device (s.reads + j) (channel + status_offset)) ≡ true
    → j < n
    → (k : ℕ) × (wait_data device n channel s ≡ some (ready, later s k))
unfolding wait_data port_in
wait-ready device channel p zero j s r e l = absurd (omega arith)
wait-ready device channel p (suc n) zero s r e l =
    let here : s.reads + 0 ≡ s.reads = omega arith in
    let now = ap (λ (x : ℕ). is_ready (device x (channel + status_offset))) (sym here) ∙ e in
    (1, rw (r.no_err s.reads, now) refl)
wait-ready device channel p (suc n) (suc j) s r e l =
    let clean = r.no_err s.reads in
    let place : s.reads + 1 + j ≡ s.reads + suc j = omega arith in
    let moved = ap (λ (x : ℕ). is_ready (device x (channel + status_offset))) place ∙ e in
    let (k, run) = wait-ready device channel p n j (later s 1) r moved (omega arith) in
    elim (Bool-cases (is_ready (device s.reads (channel + status_offset)))) [
      | inl now ↦ (1, rw (clean, now) refl)
      | inr yet ↦ (1 + k, rw (clean, yet) (run ∙ ap (λ u. some (ready, u)) (later-later s 1 k)))
    ]

module _ (device : ℕ → ℕ → ℕ) (channel p rounds : ℕ) (r : IsResponsive device channel p)
    (enough : p ≤ rounds) where
  wait_data-ready :
      (s : Io) → (k : ℕ) × (wait_data device rounds channel s ≡ some (ready, later s k))
  wait_data-ready s =
      let (j, l, e) = r.soon s.reads in wait-ready device channel p rounds j s r e (omega arith)

  settled-ready : (s : Io) → settled device channel s ≡ some (ready, later s 1)
  unfolding settled port_in
  settled-ready s = rw (r.no_err s.reads) refl

  read_words-length :
      (n : ℕ) (s : Io)
      → (ws : List ℕ) × (length ws ≡ n) × (read_words device n channel s ≡ some (ws, later s n))
  unfolding read_words port_in
  read_words-length zero s = ([], refl, ap (λ u. some ([], u)) (sym (later-zero s)))
  read_words-length (suc n) s =
      let w = device s.reads channel in
      let (ws, l, run) = read_words-length n (later s 1) in
      (
        w ∷ ws,
        ap suc l,
        runs-next (λ us. pure (w ∷ us)) run
            (ap (λ u. some (w ∷ ws, u)) (later-later s 1 n ∙ ap (later s) (omega arith))),
      )

  read_sectors-length :
      (n : ℕ) (s : Io)
      → (ws : List ℕ) × (k : ℕ) × (length ws ≡ 256 * n)
        × (read_sectors device rounds n channel s ≡ some ((ws, ready), later s k))
  unfolding read_sectors
  read_sectors-length zero s = ([], 0, refl, ap (λ u. some (([], ready), u)) (sym (later-zero s)))
  read_sectors-length (suc n) s =
      let (k, waits) = wait_data-ready s in
      let (ws, l, reads) = read_words-length 256 (later s k) in
      let (rest, j, m, runs) = read_sectors-length n (later (later s k) 256) in
      let ends : later (later (later s k) 256) j ≡ later s (k + 256 + j) =
        ap (λ u. later u j) (later-later s k 256) ∙ later-later s (k + 256) j in
      (
        ws ++ rest,
        k + 256 + j,
        length-append ws rest ∙ omega (arith, l, m),
        runs-next _ waits
            (runs-next _ reads (runs-next _ runs (ap (λ u. some ((ws ++ rest, ready), u)) ends))),
      )

-- A drive that is set up, with its driver's name.
abbrev pub whole : Private → Bytes → Drive
whole p ops = record { ops = some ops; private_fields = some p }

module _ (device : ℕ → ℕ → ℕ) (rounds rate : ℕ) (p : Private)
    (r : IsResponsive device p.channel rate) (enough : rate ≤ rounds) where
  transfer-runs :
      (lba limit : ℕ) (s t : Io)
      → request p lba limit s ≡ some (tt, t)
      → (ws : List ℕ) × (k : ℕ) × (length ws ≡ 256 * limit)
        × (transfer device rounds p lba limit s ≡ some ((pos limit, ws), later t k))
  unfolding transfer
  transfer-runs lba limit s t asks =
      let (k, waits) = wait_data-ready device p.channel rate rounds r enough t in
      let settles = settled-ready device p.channel rate rounds r enough (later t k) in
      let (ws, j, l, reads) =
        read_sectors-length device p.channel rate rounds r enough limit (later (later t k) 1) in
      let ends : later (later (later t k) 1) j ≡ later t (k + 1 + j) =
        ap (λ u. later u j) (later-later t k 1) ∙ later-later t (k + 1) j in
      (
        ws,
        k + 1 + j,
        l,
        runs-next _ asks (
            runs-next _ waits
              (runs-next _ settles (runs-next _ reads (ap (λ u. some ((pos limit, ws), u)) ends)))),
      )

  counts :
      (ops : Bytes) (size : ℕ) (s : Io)
      → p.sector_count ≡ pos size
      → ide_get_sector_count device rounds (some (whole p ops)) s
        ≡ some ((pos size, some (whole p ops)), s)
  unfolding ide_get_sector_count count_sectors
  counts ops size s known = simp (known) refl

  -- A read of at least one sector from a drive of known size, at an address of 28 bits inside it where
  -- no sum wraps, with a device that reports no error and has data again within the rounds of the
  -- waiting loops: it returns the number of sectors that was asked for, but at most what is left of
  -- the drive, and at most 255. That many sectors of 256 words are read, and what is written to the
  -- ports sets the drive's registers to just these sectors before it gives the one command, to read.
  pub ide_read_lem :
      (ops : Bytes) (size lba count : ℕ) (s : Io)
      → p.sector_count ≡ pos size
      → (p.drive ≡ master) ⊎ (p.drive ≡ slave)
      → lba < size
      → 0 < count
      → lba < 2 ^ 28
      → size < 2 ^ 64
      → count + lba < 2 ^ 64
      → let limit = min 255 (min count (size - lba)) in
        (ws : List ℕ) × (reqs : List (ℕ × ℕ)) × (n : ℕ) × (ide_read device rounds
            (some (whole p ops))
            lba
            count
            s
          ≡ some (
            (pos limit, ws, some (whole p ops)),
            record { reads = n; writes = s.writes ++ reqs },
          ))
        × (length ws ≡ 256 * limit)
        × IsRequest p lba limit reqs
  unfolding ide_read
  ide_read_lem ops size lba count s known which inside asked small fits sums =
      let limit = min 255 (min count (size - lba)) in
      let (reqs, asks, good) = request-IsRequest p lba limit s which small (omega arith) in
      let (ws, k, l, runs) = transfer-runs lba limit s _ asks in
      let cut = read_limit_lem size lba count (omega arith) fits sums in
      let ok : ltb size lba ≡ false = ground arith in
      (
        ws,
        reqs,
        s.reads + k,
        runs-next _ (counts ops size s known) (rw (ok, cut, runs) refl),
        l,
        good,
      )
