-- ===== src/Queue/Moves/Rows.antt =====
-- Each change that an operation makes to a row is a legal move of it.
use ua_web_data_collector_sp.Base.{◌≡◌, ℕ, Option, String, true, false, arith}
use ua_web_data_collector_sp.Queue.Rows.{
  Status, pending, leased, succeeded, retrying, quarantined, is_claimable, is_leased, is_terminal,
  Message, Job, put_aside,
}
use ua_web_data_collector_sp.Queue.Claim.{lease, recovered}
use ua_web_data_collector_sp.Queue.Settle.{extended, finished, postponed, released}
use ua_web_data_collector_sp.Queue.Moves.{Moved, edge}

-- The row of a job with a status of its own, so that a proof can split on it.
edge_leased : (s t : Status) → is_leased s ≡ true → edge s t ≡ true
edge_leased s t h = ground arith

edge_claim : (s : Status) → is_claimable s ≡ true → edge s leased ≡ true
edge_claim s h = ground arith

edge_aside : (s : Status) → is_terminal s ≡ false → edge s quarantined ≡ true
edge_aside s h = ground arith

pub lease-Moved :
    (worker : String) (n now : ℕ) (j : Job)
    → is_claimable j.status ≡ true
    → Moved j (lease worker n now j)
unfolding lease
lease-Moved worker n now j h = ground (arith, edge_claim j.status h)

pub extended-Moved :
    (expires now : ℕ) (j : Job) → is_leased j.status ≡ true → Moved j (extended expires now j)
unfolding extended
extended-Moved expires now j h = ground (arith, edge_leased j.status j.status h)

pub finished-Moved : (now : ℕ) (j : Job) → is_leased j.status ≡ true → Moved j (finished now j)
unfolding finished
finished-Moved now j h = ground (arith, edge_leased j.status succeeded h)

pub postponed-Moved :
    (code : String) (message : Option Message) (next now : ℕ) (j : Job)
    → is_leased j.status ≡ true
    → Moved j (postponed code message next now j)
unfolding postponed
postponed-Moved code message next now j h = ground (arith, edge_leased j.status retrying h)

pub released-Moved :
    (next now : ℕ) (j : Job) → is_leased j.status ≡ true → Moved j (released next now j)
unfolding released
released-Moved next now j h = ground (arith, edge_leased j.status pending h)

pub recovered-Moved : (now : ℕ) (j : Job) → is_leased j.status ≡ true → Moved j (recovered now j)
unfolding recovered
recovered-Moved now j h = ground (arith, edge_leased j.status pending h)

pub put_aside-Moved :
    (code : String) (message : Option Message) (now : ℕ) (j : Job)
    → is_terminal j.status ≡ false
    → Moved j (put_aside code message now j)
unfolding put_aside
put_aside-Moved code message now j h = ground (arith, edge_aside j.status h)
