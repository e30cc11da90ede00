-- ===== src/LogQueue/Replays.antt =====
-- The restore of a queue of sealed logs replays the wraps, from the first to the last.
use softwrap.LogQueue.{restore_one_log, restore_logs, restore_all_logs}
use softwrap.Prelude.{
  ℕ, zero, suc, ◌+◌, ◌≤◌, ◌<◌, ◌≡◌, ◌⊎◌, refl, ◌∙◌, arith, List, [], ◌∷◌, length, ok, Returns,
}
use softwrap.Scm.Bytes.{Mem}
use softwrap.Scm.{Scm}
use softwrap.WrapLogger.Crash.{Sealed-congr, Untouched-log, replay-Untouched}
use softwrap.WrapLogger.Entries.{Entry, IsSound, replay, replay_congr, All}
use softwrap.WrapLogger.Recovery.{Recovered, restore_fuel-Sealed}
use softwrap.WrapLogger.Session.{Fits, Sealed}
use softwrap.WrapLogger.{Logger}

-- A closed log in the queue: its logger and its entries.
pub record Closed : Type 0 where
  pub logger : Logger
  pub entries : List Entry

-- The address is not in the memory of the log.
abbrev pub OffLog : ℕ → Closed → Type 0
OffLog a c = (a < c.logger.log) ⊎ (c.logger.log + c.logger.size_of_log + 16 ≤ a)

-- The two logs are apart, and the entries of the first do not write in the second.
pub record Unrelated (c d : Closed) : Type 0 where
  pub logs :
      (c.logger.log + c.logger.size_of_log + 16 ≤ d.logger.log)
      ⊎ (d.logger.log + d.logger.size_of_log + 16 ≤ c.logger.log)
  pub entries : All (IsSound d.logger.log (d.logger.size_of_log + 16)) c.entries

-- Sealed logs that fit, each unrelated to those behind it.
abbrev pub Replayable : ℕ → Mem → List Closed → Type 0
Replayable fuel m [] = Unit
Replayable fuel m (c ∷ cs) =
    (length c.entries < fuel)
    × Fits c.logger c.entries
    × Sealed c.logger c.entries m
    × All (Unrelated c) cs
    × Replayable fuel m cs

-- The wraps of the logs, one after the other.
abbrev pub replay_all : List Closed → Mem → Mem
replay_all [] m = m
replay_all (c ∷ cs) m = replay_all cs (replay c.entries m)

Replayable-Recovered :
    (fuel : ℕ) (c : Closed) (m : Mem) (r : ℕ × Scm) (cs : List Closed)
    → Recovered c.logger c.entries m r
    → All (Unrelated c) cs
    → Replayable fuel m cs
    → Replayable fuel r.1.mem cs
Replayable-Recovered fuel c m r [] back apart h = tt
Replayable-Recovered fuel c m r (d ∷ cs) back (apart, aparts) (enough, fits, sealed, others, rest) =
    (
      enough,
      fits,
      Sealed-congr d.logger d.entries m r.1.mem fits
          (λ a lo hi.
            back.replayed a (omega (arith, apart.logs, lo, hi))
            ∙ replay-Untouched c.entries m a (
                Untouched-log d.logger.log (d.logger.size_of_log + 16) c.entries a apart.entries lo
                  hi))
          sealed,
      others,
      Replayable-Recovered fuel c m r cs back aparts rest,
    )

replay_all_congr :
    (cs : List Closed) (m k : Mem) (a : ℕ) → m a ≡ k a → replay_all cs m a ≡ replay_all cs k a
replay_all_congr [] m k a h = h
replay_all_congr (c ∷ cs) m k a h =
    replay_all_congr cs (replay c.entries m) (replay c.entries k) a (replay_congr c.entries m k a h)

abbrev pub addresses : List Closed → List ℕ
addresses [] = []
addresses (c ∷ cs) = c.logger.log ∷ addresses cs

restore_logs-replay_all :
    (cs : List Closed) (turns fuel i n size : ℕ) (st : Scm)
    → length cs ≤ turns
    → Replayable fuel st.mem cs
    → (st' : Scm) × (k : ℕ) × (restore_logs turns fuel i n
          (record { size = size; queue = addresses cs }, st)
        ≡ ok ((i + length cs, k), (record { size = size; queue = [] }, st')))
      × ((a : ℕ) → All (OffLog a) cs → st'.mem a ≡ replay_all cs st.mem a)
unfolding restore_logs restore_one_log
restore_logs-replay_all [] zero fuel i n size st enough h =
    let none : i + 0 ≡ i = omega arith in (st, n, rw none, λ a off. refl)
restore_logs-replay_all [] (suc turns) fuel i n size st enough h =
    let none : i + 0 ≡ i = omega arith in (st, n, rw none, λ a off. refl)
restore_logs-replay_all (c ∷ cs) zero fuel i n size st enough h = absurd (omega arith)
restore_logs-replay_all (c ∷ cs) (suc turns) fuel i n size st enough
      (few, fits, sealed, apart, rest) =
    let (r, run, back) = restore_fuel-Sealed fuel c.entries c.logger st few fits sealed in
    let (st', k, run', mem) =
      restore_logs-replay_all cs turns fuel (i + 1) (n + r.0) size r.1 (omega arith)
        (Replayable-Recovered fuel c st.mem r cs back apart rest) in
    let count : i + 1 + length cs ≡ i + suc (length cs) = omega arith in
    (
      st',
      k,
      rw run (run' ∙ rw count),
      λ a (off, offs).
          mem a offs
          ∙ replay_all_congr cs r.1.mem (replay c.entries st.mem) a (back.replayed a off),
    )

-- From a queue of closed logs whose entries fit and are not of four bytes, where the memories of
-- the logs are apart and no entry of a log writes in it or in a log behind it, restoreAllLogs, with
-- fuel for as many turns as there are logs and for one more than a log has entries, ends normally,
-- gives the number of the logs and leaves no log in the queue. Memory outside the logs is what the
-- entries of all wraps make of it, in the order of the queue.
pub restore_all_logs-replay :
    (cs : List Closed) (fuel size : ℕ) (st : Scm) (a : ℕ)
    → length cs ≤ fuel
    → Replayable fuel st.mem cs
    → All (OffLog a) cs
    → Returns
        (restore_all_logs fuel (record { size = size; queue = addresses cs }, st))
        λ r. (r.0 ≡ length cs) × (r.1.0.queue ≡ []) × (r.1.1.mem a ≡ replay_all cs st.mem a)
unfolding restore_all_logs
restore_all_logs-replay cs fuel size st a enough h off =
    let (st', k, run, mem) = restore_logs-replay_all cs fuel fuel 0 0 size st enough h in
    let count : 0 + length cs ≡ length cs = omega arith in
    (
      (length cs, (record { size = size; queue = [] }, st')),
      rw run (rw count),
      (refl, refl, mem a off),
    )
