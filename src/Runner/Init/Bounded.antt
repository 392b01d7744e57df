-- ===== src/Runner/Init/Bounded.antt =====
-- `ModelRunner.init` ends: the attempts are counted and each await belongs to one of them.
use model_runner_client.Base.{
  ℕ, zero, suc, ◌+◌, ◌-◌, ◌*◌, ◌≤◌, ◌<◌, ◌≡◌, refl, Bool, true, false, inl, inr, arith, Option,
  none, some, Bool-cases,
}
use model_runner_client.Credentials.{SecureCredentials, GatewayCredentials}
use model_runner_client.Runner.{
  ModelRunner, Exception, rpc_error, other_error, retry_attempts, Infos, PeerTlsRsaKey, Channel,
}
use model_runner_client.Runner.Init.{
  InitPoint, probing, main_ready, health_ready, setting_up, checking_tls, backing_off, Opens,
  both_open, main_fails, health_fails, Reply, probed, ready, set_up, tls_answer, woke, raised,
  InitState, waiting, returned, raises, except, open_channels, begin_attempt, after_probe,
  init_start, init_resume, init_loop, connect, gateway_channels, insecure_channels, secure_channels,
}

-- The replies that an await can give.
abbrev pub fits : InitPoint → Reply → Bool
fits (probing a) (probed peer opens) = true
fits (probing a) (raised e) = true
fits (main_ready a) ready = true
fits (main_ready a) (raised e) = true
fits (health_ready a) ready = true
fits (health_ready a) (raised e) = true
fits (setting_up a) (set_up succeed error) = true
fits (setting_up a) (raised e) = true
fits (checking_tls a) (tls_answer b) = true
fits (checking_tls a) (raised e) = true
fits (backing_off a) (woke opens) = true
fits p x = false

-- The awaits that an attempt still has before it, in the worst case.
abbrev rank : InitPoint → ℕ
rank (probing a) = 6
rank (main_ready a) = 5
rank (health_ready a) = 4
rank (setting_up a) = 3
rank (checking_tls a) = 2
rank (backing_off a) = 1

abbrev pub attempt_of : InitPoint → ℕ
attempt_of (probing a) = a
attempt_of (main_ready a) = a
attempt_of (health_ready a) = a
attempt_of (setting_up a) = a
attempt_of (checking_tls a) = a
attempt_of (backing_off a) = a

-- How many replies `init` can still wait for.
unfoldable pub measure : InitState → ℕ
measure (waiting p) = (retry_attempts - attempt_of p) * 6 + rank p
measure (returned b e) = 0
measure (raises e) = 0

-- The attempts are 1 to `retry_attempts`, and after the last there is no sleep.
abbrev pub IsPoint : InitPoint → Type 0
IsPoint (backing_off a) = a < retry_attempts
IsPoint p = attempt_of p ≤ retry_attempts

abbrev pub InRange : InitState → Type 0
InRange (waiting p) = IsPoint p
InRange (returned b e) = Unit
InRange (raises e) = Unit

measure_pos : (p : InitPoint) → IsPoint p → 0 < measure (waiting p)
unfolding measure
measure_pos (probing a) h = omega arith
measure_pos _ h = omega arith

-- An attempt that is in range, and `n` replies at most.
abbrev Within : ℕ → InitState → Type 0
Within n s = InRange s × (measure s ≤ n)

abbrev before : ℕ → ℕ → ℕ
before a k = (retry_attempts - a) * 6 + k

except-Within :
    (r : ModelRunner) (a : ℕ) (e : Exception)
    → a ≤ retry_attempts
    → Within (before a 2) (except r a e).1
unfolding except measure
except-Within r a rpc_error h = ground arith
except-Within r a _ h = ground arith

open_channels-Within :
    (r : ModelRunner) (a : ℕ) (c : Channel × Channel) (o : Opens)
    → a ≤ retry_attempts
    → Within (before a 5) (open_channels r a c o).1
unfolding open_channels measure
open_channels-Within r a (m, hc) both_open h = ground arith
open_channels-Within r a (m, hc) (main_fails e) h =
    let (p, q) = except-Within r a e h in (p, omega arith)
open_channels-Within r a (m, hc) (health_fails e) h =
    let (p, q) = except-Within (record r { grpc_channel = some m }) a e h in (p, omega arith)

connect-Within :
    (c : Option SecureCredentials) (g : Option GatewayCredentials) (r : ModelRunner) (a : ℕ)
    (o : Opens)
    → a ≤ retry_attempts
    → Within (before a 6) (connect c g r a o).1
unfolding connect measure
connect-Within (some c) g r a o h = ground arith
connect-Within none (some g) r a o h =
    let (p, q) = open_channels-Within r a (gateway_channels g r) o h in (p, omega arith)
connect-Within none none r a o h =
    let (p, q) = open_channels-Within r a (insecure_channels r) o h in (p, omega arith)

begin_attempt-Within :
    (r : ModelRunner) (a : ℕ) (o : Opens)
    → a ≤ retry_attempts
    → Within (before a 6) (begin_attempt r a o).1
unfolding begin_attempt measure
begin_attempt-Within r a o h = elim (Bool-cases r.closed) [
  | inl e ↦ simp e (tt, omega arith)
  | inr e ↦ simp e (connect-Within r.secure_credentials r.gateway_credentials r a o h)
]

after_probe-Within :
    (c : Option SecureCredentials) (infos : Option Infos) (r : ModelRunner) (a : ℕ)
    (peer : PeerTlsRsaKey) (o : Opens)
    → a ≤ retry_attempts
    → Within (before a 5) (after_probe c infos r a peer o).1
unfolding after_probe measure
after_probe-Within none infos r a peer o h =
    let (p, q) = except-Within r a other_error h in (p, omega arith)
after_probe-Within (some c) none r a peer o h =
    let (p, q) = except-Within r a other_error h in (p, omega arith)
after_probe-Within (some c) (some infos) r a peer o h =
    open_channels-Within r a (secure_channels c peer r) o h

-- A reply that fits uses up one of those that are left.
pub init_resume-measure :
    (r : ModelRunner) (p : InitPoint) (x : Reply)
    → InRange (waiting p)
    → fits p x ≡ true
    → InRange (init_resume r p x).1 × (measure (init_resume r p x).1 < measure (waiting p))
unfolding init_resume measure
init_resume-measure r (probing a) (probed peer o) h f =
    let (p, q) = after_probe-Within r.secure_credentials r.infos r a peer o h in (p, omega arith)
init_resume-measure r (probing a) (raised e) h f =
    let (p, q) = except-Within r a e h in (p, omega arith)
init_resume-measure r (main_ready a) ready h f = ground arith
init_resume-measure r (main_ready a) (raised e) h f =
    let (p, q) = except-Within r a e h in (p, omega arith)
init_resume-measure r (health_ready a) ready h f = ground arith
init_resume-measure r (health_ready a) (raised e) h f =
    let (p, q) = except-Within r a e h in (p, omega arith)
init_resume-measure r (setting_up a) (set_up b e) h f = ground arith
init_resume-measure r (setting_up a) (raised e) h f =
    let (p, q) = except-Within r a e h in (p, omega arith)
init_resume-measure r (checking_tls a) (tls_answer true) h f = ground arith
init_resume-measure r (checking_tls a) (tls_answer false) h f = ground arith
init_resume-measure r (checking_tls a) (raised e) h f = ground arith
init_resume-measure r (backing_off a) (woke o) h f =
    let (p, q) = begin_attempt-Within r (suc a) o h in (p, omega arith)
init_resume-measure r _ _ h f = cc

-- A call of `init` waits for 30 replies at most.
pub init_start-measure :
    (r : ModelRunner) (o : Opens) → InRange (init_start r o).1 × (measure (init_start r o).1 ≤ 30)
unfolding init_start
init_start-measure r o = begin_attempt-Within r 1 o (omega arith)

-- A reply that does not fit changes nothing.
pub init_resume-unfit :
    (r : ModelRunner) (p : InitPoint) (x : Reply)
    → fits p x ≡ false
    → init_resume r p x ≡ (r, waiting p)
unfolding init_resume
init_resume-unfit r (probing a) ready f = refl
init_resume-unfit r (probing a) (probed peer o) f = cc
init_resume-unfit r (checking_tls a) (tls_answer true) f = cc
init_resume-unfit r _ _ f = ground arith

abbrev pub IsEnded : InitState → Type 0
IsEnded (waiting p) = ⊥
IsEnded (returned succeed error) = Unit
IsEnded (raises e) = Unit

init_loop_ends :
    (answer : ℕ → InitPoint → Reply)
    → ((n : ℕ) (p : InitPoint) → fits p (answer n p) ≡ true)
    → (n : ℕ) (r : ModelRunner) (s : InitState) → InRange s
    → measure s ≤ n
    → IsEnded (init_loop answer n (r, s)).1
unfolding init_loop
init_loop_ends answer fit zero r (waiting p) h m = absurd (omega (arith, measure_pos p h))
init_loop_ends answer fit (suc n) r (waiting p) h m =
    let x = answer n p in
    let (h', m') = init_resume-measure r p x h (fit n p) in
    init_loop_ends answer fit n (init_resume r p x).0 (init_resume r p x).1 h' (omega arith)
init_loop_ends answer fit zero r (returned b e) h m = tt
init_loop_ends answer fit (suc n) r (returned b e) h m = tt
init_loop_ends answer fit zero r (raises e) h m = tt
init_loop_ends answer fit (suc n) r (raises e) h m = tt

-- If the environment answers each await with a reply that the await can give, `init` has returned or
-- raised after 30 replies at the latest, whatever the replies are.
pub init_ends :
    (answer : ℕ → InitPoint → Reply) (r : ModelRunner) (opens : Opens)
    → ((n : ℕ) (p : InitPoint) → fits p (answer n p) ≡ true)
    → IsEnded (init_loop answer 30 (init_start r opens)).1
init_ends answer r opens fit =
    let (h, m) = init_start-measure r opens in
    init_loop_ends answer fit 30 (init_start r opens).0 (init_start r opens).1 h m
