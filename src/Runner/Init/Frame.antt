-- ===== src/Runner/Init/Frame.antt =====
-- The fields of a runner that `ModelRunner.init` reads and never writes.
use model_runner_client.Base.{
  ℕ, suc, ◌≡◌, true, false, Option, none, some, arith, inl, inr, Bool-cases,
}
use model_runner_client.Credentials.{SecureCredentials, GatewayCredentials}
use model_runner_client.Runner.{
  ModelRunner, Exception, rpc_error, other_error, Infos, PeerTlsRsaKey, Channel,
}
use model_runner_client.Runner.Init.{
  InitPoint, probing, main_ready, health_ready, setting_up, checking_tls, backing_off, Opens,
  both_open, main_fails, health_fails, Reply, probed, tls_answer, woke, raised, except,
  open_channels, connect, begin_attempt, after_probe, init_start, init_resume, retry,
  secure_channels, gateway_channels, insecure_channels,
}

-- The fields that `init` reads and never writes.
pub record SameRunner (r s : ModelRunner) : Type 0 where
  pub deployment_id : r.deployment_id ≡ s.deployment_id
  pub model_id : r.model_id ≡ s.model_id
  pub ip : r.ip ≡ s.ip
  pub port : r.port ≡ s.port
  pub infos : r.infos ≡ s.infos
  pub closed : r.closed ≡ s.closed
  pub secure : r.secure_credentials ≡ s.secure_credentials
  pub gateway : r.gateway_credentials ≡ s.gateway_credentials

pub SameRunner-refl : (r : ModelRunner) → SameRunner r r
SameRunner-refl r = ground arith

retry-SameRunner : (r : ModelRunner) (a : ℕ) → SameRunner (retry r a).0 r
unfolding retry
retry-SameRunner r a = ground arith

except-SameRunner : (r : ModelRunner) (a : ℕ) (e : Exception) → SameRunner (except r a e).0 r
unfolding except
except-SameRunner r a rpc_error = ground arith
except-SameRunner r a _ = ground arith

open_channels-SameRunner :
    (r : ModelRunner) (a : ℕ) (c : Channel × Channel) (o : Opens)
    → SameRunner (open_channels r a c o).0 r
unfolding open_channels
open_channels-SameRunner r a (m, h) both_open = ground arith
open_channels-SameRunner r a (m, h) (main_fails e) = except-SameRunner r a e
open_channels-SameRunner r a (m, h) (health_fails e) =
    let s = except-SameRunner (record r { grpc_channel = some m }) a e in ground arith

connect-SameRunner :
    (c : Option SecureCredentials) (g : Option GatewayCredentials) (r : ModelRunner) (a : ℕ)
    (o : Opens)
    → SameRunner (connect c g r a o).0 r
unfolding connect
connect-SameRunner (some c) g r a o = SameRunner-refl r
connect-SameRunner none (some g) r a o = open_channels-SameRunner r a (gateway_channels g r) o
connect-SameRunner none none r a o = open_channels-SameRunner r a (insecure_channels r) o

begin_attempt-SameRunner :
    (r : ModelRunner) (a : ℕ) (o : Opens) → SameRunner (begin_attempt r a o).0 r
unfolding begin_attempt
begin_attempt-SameRunner r a o = elim (Bool-cases r.closed) [
  | inl e ↦ simp e (SameRunner-refl r)
  | inr e ↦ simp e (connect-SameRunner r.secure_credentials r.gateway_credentials r a o)
]

pub init_start-SameRunner : (r : ModelRunner) (o : Opens) → SameRunner (init_start r o).0 r
unfolding init_start
init_start-SameRunner r o = begin_attempt-SameRunner r 1 o

after_probe-SameRunner :
    (c : Option SecureCredentials) (infos : Option Infos) (r : ModelRunner) (a : ℕ)
    (peer : PeerTlsRsaKey) (o : Opens)
    → SameRunner (after_probe c infos r a peer o).0 r
unfolding after_probe
after_probe-SameRunner none infos r a peer o = except-SameRunner r a other_error
after_probe-SameRunner (some c) none r a peer o = except-SameRunner r a other_error
after_probe-SameRunner (some c) (some infos) r a peer o =
    open_channels-SameRunner r a (secure_channels c peer r) o

pub init_resume-SameRunner :
    (r : ModelRunner) (p : InitPoint) (x : Reply) → SameRunner (init_resume r p x).0 r
unfolding init_resume
init_resume-SameRunner r (probing a) (probed peer o) =
    after_probe-SameRunner r.secure_credentials r.infos r a peer o
init_resume-SameRunner r (probing a) (raised e) = except-SameRunner r a e
init_resume-SameRunner r (main_ready a) (raised e) = except-SameRunner r a e
init_resume-SameRunner r (health_ready a) (raised e) = except-SameRunner r a e
init_resume-SameRunner r (setting_up a) (raised e) = except-SameRunner r a e
init_resume-SameRunner r (checking_tls a) (tls_answer true) = SameRunner-refl r
init_resume-SameRunner r (checking_tls a) (tls_answer false) = retry-SameRunner r a
init_resume-SameRunner r (backing_off a) (woke o) = begin_attempt-SameRunner r (suc a) o
init_resume-SameRunner r _ _ = SameRunner-refl r
