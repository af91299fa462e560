-- ===== src/Console/Serial.antt =====
-- The serial port of kernel/arch/x86_64/debug.c: `k_init`, `k_putc`, `k_print`, and the calls that log a
-- line. What each read of the status port gives is a parameter, and the writes are kept in their order.
use project_luciano.Base.{
  ℕ, zero, suc, ◌+◌, ◌<◌, bit_and, ◌≡◌, refl, sym, ap, ◌∙◌, ◌≢◌, inl, inr, Option, none, some, List,
  [], ◌∷◌, ◌++◌, map, append-nil, append_assoc, arith, ◌==◌, if◌then◌else◌, ==_iff, Bool-cases,
}
use project_luciano.Libc.{Bytes}
use project_luciano.Console.{Arg, word_arg, k_print_format}

-- How many times the status was read, and the writes to ports, the first one first.
pub record Serial : Type 0 where
  pub reads : ℕ
  pub writes : List (ℕ × ℕ)

abbrev pub data_port : ℕ
data_port = 0x3F8

abbrev pub outb : ℕ → ℕ → Serial → Serial
outb port value s = record s { writes = s.writes ++ ((port, value) ∷ []) }

unfoldable pub k_init : Serial → Serial
k_init s = outb (data_port + 2) 0xC7 (
    outb (data_port + 3) 0x03 (
      outb (data_port + 1) 0x00
        (outb (data_port + 0) 0x03 (outb (data_port + 3) 0x80 (outb (data_port + 1) 0x00 s)))))

abbrev pub after {ℓ} : {A B : Type ℓ} → Option A → (A → Option B) → Option B
after none k = none
after (some a) k = k a

-- `status n` is what the `n`-th read of the status port gives, and `rounds` the most reads that a byte
-- waits for; `none` is a byte that is still waiting then.
module _ (status : ℕ → ℕ) (rounds : ℕ) where
  unfoldable pub wait : ℕ → Serial → Option Serial
  wait zero s = none
  wait (suc left) s =
      let next = wait left (record s { reads = s.reads + 1 }) in
      if bit_and (status s.reads) 0x20 == 0 then next else some (record s { reads = s.reads + 1 })

  unfoldable pub k_putc : ℕ → Serial → Option Serial
  unfolding wait
  k_putc c s = after (wait rounds s) (λ t. some (outb data_port c t))

  unfoldable pub k_print : Bytes → Serial → Option Serial
  unfolding k_putc
  k_print [] s = some s
  k_print (c ∷ cs) s = after (k_putc c s) (λ t. k_print cs t)

  -- `k_print_format`, whose three parts go out one behind the other.
  abbrev pub send : Option Bytes → Serial → Option Serial
  send out s = after out (λ bytes. k_print bytes s)

  unfoldable pub k_log : Bytes → List Arg → Serial → Option Serial
  k_log format args s =
      send (k_print_format (b'[' ∷ b'L' ∷ b'O' ∷ b'G' ∷ b']' ∷ b' ' ∷ []) format args) s

  unfoldable pub k_warn : Bytes → List Arg → Serial → Option Serial
  k_warn format args s =
      send (k_print_format (b'[' ∷ b'W' ∷ b'A' ∷ b'R' ∷ b'N' ∷ b']' ∷ b' ' ∷ []) format args) s

  unfoldable pub k_error : Bytes → List Arg → Serial → Option Serial
  k_error format args s =
      send (k_print_format (b'[' ∷ b'E' ∷ b'R' ∷ b'R' ∷ b'O' ∷ b'R' ∷ b']' ∷ b' ' ∷ []) format args)
        s

  -- The state of the port when `k_panic` has printed; the endless loop that follows does not use it.
  unfoldable pub k_panic : Bytes → List Arg → Serial → Option Serial
  k_panic format args s =
      send (k_print_format (b'[' ∷ b'P' ∷ b'A' ∷ b'N' ∷ b'I' ∷ b'C' ∷ b']' ∷ b' ' ∷ []) format args)
        s

  unfoldable pub k_log_hex : ℕ → Serial → Option Serial
  unfolding k_log
  k_log_hex value s =
      k_log (b'V' ∷ b'a' ∷ b'l' ∷ b'u' ∷ b'e' ∷ b' ' ∷ b'%' ∷ b'x' ∷ []) (word_arg value ∷ []) s

  -- A port that has room for a byte within `rounds` reads of its status, from any read on.
  abbrev pub IsLive : Type 0
  IsLive = (n : ℕ) → (k : ℕ) × (k < rounds) × (bit_and (status (n + k)) 0x20 ≢ 0)

  wait_lem :
      (left k : ℕ) (s : Serial)
      → k < left
      → bit_and (status (s.reads + k)) 0x20 ≢ 0
      → (t : Serial) × (wait left s ≡ some t) × (t.writes ≡ s.writes)
  unfolding wait
  wait_lem zero k s h ready = absurd (omega arith)
  wait_lem (suc left) zero s h ready = elim (Bool-cases (bit_and (status s.reads) 0x20 == 0)) [
    | inl busy ↦
        let here : s.reads + 0 ≡ s.reads = omega arith in
        absurd (
          ready (
            ap (λ n. bit_and (status n) 0x20) here
            ∙ (==_iff (bit_and (status s.reads) 0x20) 0).0 busy))
    | inr free ↦ (record s { reads = s.reads + 1 }, rw free refl, refl)
  ]
  wait_lem (suc left) (suc k) s h ready = elim (Bool-cases (bit_and (status s.reads) 0x20 == 0)) [
    | inl busy ↦
        let there : s.reads + 1 + k ≡ s.reads + suc k = omega arith in
        let (t, run, same) =
          wait_lem left k (record s { reads = s.reads + 1 }) (omega arith)
            (λ q. ready (ap (λ n. bit_and (status n) 0x20) (sym there) ∙ q)) in
        (t, rw busy run, same)
    | inr free ↦ (record s { reads = s.reads + 1 }, rw free refl, refl)
  ]

  k_putc_lem :
      (c : ℕ) (s : Serial)
      → IsLive
      → (t : Serial) × (k_putc c s ≡ some t) × (t.writes ≡ s.writes ++ ((data_port, c) ∷ []))
  unfolding k_putc
  k_putc_lem c s live =
      let (k, soon, ready) = live s.reads in
      let (t, run, same) = wait_lem rounds k s soon ready in
      (outb data_port c t, rw run refl, ap (λ ws. ws ++ ((data_port, c) ∷ [])) same)

  -- On a port that always has room again within `rounds` reads of its status, `k_print` comes to an end,
  -- and what it writes are the bytes of its string, to the data port and in their order.
  pub k_print_lem :
      (cs : Bytes) (s : Serial)
      → IsLive
      → (t : Serial) × (k_print cs s ≡ some t)
        × (t.writes ≡ s.writes ++ map (λ c. (data_port, c)) cs)
  unfolding k_print
  k_print_lem [] s live = (s, refl, sym (append-nil s.writes))
  k_print_lem (c ∷ cs) s live =
      let (t, put, wrote) = k_putc_lem c s live in
      let (u, rest, more) = k_print_lem cs t live in
      (
        u,
        rw put rest,
        more
            ∙ ap (λ ws. ws ++ map (λ c. (data_port, c)) cs) wrote
            ∙ append_assoc s.writes ((data_port, c) ∷ []) (map (λ c. (data_port, c)) cs),
      )
