-- ===== src/Portal/Speed.antt =====
-- `handleSpeedDown` of src/web/portal.cpp: the throughput test of the downstream link.
use spool_gate.Base.{
  ℕ, zero, suc, ◌+◌, ◌*◌, ◌%◌, ◌<◌, ◌≤◌, ◌≡◌, inl, inr, ◌⊎◌, refl, ap, ◌∙◌, Bool, true, false, not,
  ◌&&◌, Option, none, some, [], ◌∷◌, ltb, ◌==◌, if◌then◌else◌, sub32, u32_mod, ℤ, pos, negsuc,
  arith, Bool-cases, ◌++◌, ◌/◌, Text, codes, decimal, signed_decimal, stamped,
}
use spool_gate.Portal.StatJson.{client_rssi}
use spool_gate.Portal.{Strings, Request, Portal, Response, plain, filler, no_store, Env, arg}

abbrev pub speed_block_bytes : ℕ
speed_block_bytes = 4096

abbrev pub speed_default_mib : ℕ
speed_default_mib = 8

abbrev pub speed_max_mib : ℕ
speed_max_mib = 64

abbrev pub speed_max_ms : ℕ
speed_max_ms = 20000

-- The size asked for, in MiB.
unfoldable pub clamp_mib : ℤ → ℕ
clamp_mib (negsuc n) = speed_default_mib
clamp_mib (pos n) =
    if n == 0 then speed_default_mib else (if ltb speed_max_mib n then speed_max_mib else n)

-- The test of the `while`, and the check of the connection in its body, before the `k`-th block.
unfoldable pub goes_on : Env → Request → ℕ → ℕ → ℕ → ℕ → Bool
goes_on env q target start k sent =
    (ltb sent target && ltb (sub32 (env.block_now k) start) speed_max_ms) && q.connected k

-- The loop, with fuel: `none` means that the fuel ran out. Before the `k`-th block `sent` bytes are
-- out; the result is their number at the end.
unfoldable pub send_from : ℕ → Env → Request → ℕ → ℕ → ℕ → ℕ → Option ℕ
send_from zero env q target start k sent = none
send_from (suc fuel) env q target start k sent =
    let rest = send_from fuel env q target start (k + 1) ((sent + speed_block_bytes) % u32_mod) in
    if goes_on env q target start k sent then rest else some sent

-- Blocks that a run of the largest size takes, and the last test.
abbrev pub speed_fuel : ℕ
speed_fuel = 16385

abbrev sent_or : Option ℕ → ℕ
sent_or none = 0
sent_or (some n) = n

-- The run, with the reading of the clock at its start and after its end.
unfoldable pub bytes_sent : Env → Request → ℕ → Option ℕ
bytes_sent env q mib = send_from speed_fuel env q (mib * 1048576 % u32_mod) env.speed_now 0 0

-- bits per millisecond, cast to 32 bits
unfoldable pub kbit_per_s : ℕ → ℕ → ℕ
kbit_per_s sent elapsed = if ltb 0 elapsed then sent * 8 / elapsed % u32_mod else 0

-- The line that is logged behind a run.
unfoldable pub speed_line : Env → ℕ → ℕ → Text
speed_line env sent elapsed =
    stamped env.line_now
    ++ (codes "speedtest: AP link sent "
        ++ (decimal (sent / 1024)
            ++ (codes " KiB in "
                ++ (decimal elapsed
                    ++ (codes " ms = "
                        ++ (decimal (kbit_per_s sent elapsed)
                            ++ (codes " kbit/s (client rssi "
                                ++ (signed_decimal (client_rssi env.vitals.sta_list)
                                    ++ codes " dBm)\n"))))))))

unfoldable pub speed_run : Strings → Env → Request → Portal → Portal × Response
speed_run strings env q p =
    if not env.memory
    then (
      p,
      record {
        status = 503;
        headers = [];
        body = plain "Out of memory for the test buffer.";
        saves = [];
        lines = [];
      },
    )
    else (let sent = sent_or (bytes_sent env q (clamp_mib (strings.to_int (arg "mb" q)))) in
        (
          record p { speed_bytes = sent; speed_ms = sub32 env.save_now env.speed_now },
          record {
            status = 200;
            headers = no_store ∷ [];
            body = filler sent;
            saves = [];
            lines = speed_line env sent (sub32 env.save_now env.speed_now) ∷ [];
          },
        ))

-- What a block needs beside bytes that are left: a client, and less than 20 s since the start.
abbrev pub in_time : Env → Request → ℕ → Bool
in_time env q k = ltb (sub32 (env.block_now k) env.speed_now) 20000 && q.connected k

abbrev pub all_below : ℕ → (ℕ → Bool) → Bool
all_below zero f = true
all_below (suc n) f = f n && all_below n f

-- Where a run of the loop ends: `blocks` blocks of 4096 bytes are out, at most those asked for, each of
-- them in time and to a client; and they are all, or the next one is too late or without a client.
pub record Stops (env : Env) (q : Request) (asked : ℕ) (result : Option ℕ) : Type 0 where
  pub blocks : ℕ
  pub result_is : result ≡ some (blocks * speed_block_bytes)
  pub at_most : blocks ≤ asked
  pub each_in_time : all_below blocks (in_time env q) ≡ true
  pub ends : (blocks ≡ asked) ⊎ (in_time env q blocks ≡ false)

all_below-suc :
    (k : ℕ) (f : ℕ → Bool) → f k ≡ true → all_below k f ≡ true → all_below (k + 1) f ≡ true
all_below-suc k f h e =
    let same : k + 1 ≡ suc k = omega arith in ap (λ m. all_below m f) same ∙ rw h e

next_sent : (k : ℕ) → k < 16384 → (k * 4096 + 4096) % 4294967296 ≡ (k + 1) * 4096
next_sent k l = ground arith

goes_on-below :
    (env : Env) (q : Request) (asked k : ℕ)
    → goes_on env q (asked * speed_block_bytes) env.speed_now k (k * speed_block_bytes) ≡ true
    → (k < asked) × (in_time env q k ≡ true)
unfolding goes_on
goes_on-below env q asked k t = ground arith

goes_on-over :
    (env : Env) (q : Request) (asked k : ℕ)
    → k ≤ asked
    → goes_on env q (asked * speed_block_bytes) env.speed_now k (k * speed_block_bytes) ≡ false
    → (k ≡ asked) ⊎ (in_time env q k ≡ false)
unfolding goes_on
goes_on-over env q asked k l t = ground arith

send_from-Stops :
    (fuel : ℕ) (env : Env) (q : Request) (asked k : ℕ)
    → asked ≤ 16384
    → k ≤ asked
    → asked < fuel + k
    → all_below k (in_time env q) ≡ true
    → Stops env q asked
        (send_from fuel env q (asked * speed_block_bytes) env.speed_now k (k * speed_block_bytes))
unfolding send_from
send_from-Stops zero env q asked k m l f e = absurd (omega arith)
send_from-Stops (suc fuel) env q asked k m l f e =
    elim (Bool-cases
      (goes_on env q (asked * speed_block_bytes) env.speed_now k (k * speed_block_bytes))) [
        | inl more ↦
            let (below, timely) = goes_on-below env q asked k more in
            let rest =
              send_from-Stops fuel env q asked (k + 1) m (omega arith) (omega arith)
                (all_below-suc k (in_time env q) timely e) in
            rw more (rw (next_sent k (omega arith)) rest)
        | inr over ↦ rw over (record {
          blocks = k;
          result_is = refl;
          at_most = l;
          each_in_time = e;
          ends = goes_on-over env q asked k l over;
        })
      ]

asked_bytes : (mib : ℕ) → mib ≤ 64 → mib * 1048576 % 4294967296 ≡ mib * 256 * 4096
asked_bytes mib l = ground arith

-- Whatever the clock and the client do, a run of up to 64 MiB ends within the fuel, with whole blocks
-- sent and no more than asked for. Every block was sent within 20 s of the start and to a client that was
-- there; and if fewer blocks were sent than asked for, the 20 s were over before the next one or the
-- client was gone.
pub bytes_sent-Stops :
    (env : Env) (q : Request) (mib : ℕ)
    → mib ≤ speed_max_mib
    → Stops env q (mib * 256) (bytes_sent env q mib)
unfolding bytes_sent
bytes_sent-Stops env q mib l =
    rw (asked_bytes mib l) (
      send_from-Stops speed_fuel env q (mib * 256) 0 (omega arith) (omega arith) (omega arith) refl)

-- What the handler asks for, whatever the argument says.
pub clamp_mib-bounds : (z : ℤ) → (1 ≤ clamp_mib z) × (clamp_mib z ≤ speed_max_mib)
unfolding clamp_mib
clamp_mib-bounds z = ground arith

speed_run-memory :
    (strings : Strings) (env : Env) (q : Request) (p : Portal)
    → env.memory ≡ true
    → let sent = sent_or (bytes_sent env q (clamp_mib (strings.to_int (arg "mb" q)))) in
      speed_run strings env q p ≡ (
        record p { speed_bytes = sent; speed_ms = sub32 env.save_now env.speed_now },
        record {
          status = 200;
          headers = no_store ∷ [];
          body = filler sent;
          saves = [];
          lines = speed_line env sent (sub32 env.save_now env.speed_now) ∷ [];
        },
      )
unfolding speed_run
speed_run-memory strings env q p m = simp m

blocks-bounds :
    (n mib : ℕ) → n ≤ mib * 256 → mib ≤ 64 → (n * 4096 ≤ 67108864) × (n * 4096 % 4096 ≡ 0)
blocks-bounds n mib l m = omega arith

-- The reports of the handler are what it sent: with a buffer to send from, any request is answered
-- with whole blocks of at most 64 MiB, of which the portal keeps the number for the figures it shows.
pub speed_run-figures :
    (strings : Strings) (env : Env) (q : Request) (p : Portal)
    → env.memory ≡ true
    → let r = speed_run strings env q p in
      (r.1.body ≡ filler r.0.speed_bytes)
      × (r.0.speed_bytes ≤ 67108864)
      × (r.0.speed_bytes % speed_block_bytes ≡ 0)
      × (bytes_sent env q (clamp_mib (strings.to_int (arg "mb" q))) ≡ some r.0.speed_bytes)
speed_run-figures strings env q p m =
    let mib = clamp_mib (strings.to_int (arg "mb" q)) in
    let bounds = clamp_mib-bounds (strings.to_int (arg "mb" q)) in
    let stops = bytes_sent-Stops env q mib bounds.1 in
    let (small, whole) = blocks-bounds stops.blocks mib stops.at_most bounds.1 in
    rw (speed_run-memory strings env q p m, stops.result_is) (refl, small, whole, refl)
