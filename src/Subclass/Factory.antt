-- ===== src/Subclass/Factory.antt =====
-- model_concurrent_runners/dynamic_subclass_model_concurrent_runner.py: the constructor, and the
-- runners that it creates.
use model_runner_client.Base.{ℕ, Option, none, some, List, [], String}
use model_runner_client.Base.Eq.{string_equality}
use model_runner_client.Credentials.{SecureCredentials, GatewayCredentials}
use model_runner_client.Runner.{ModelRunner, Key, Infos, new_runner}
use model_runner_client.Subclass.{SubclassRunner}

-- A parameter with a default: `none` is the sentinel.
abbrev pub with_default : {A : Type 0} → A → Option A → A
with_default d none = d
with_default d (some a) = a

-- What `DynamicSubclassModelConcurrentRunner` adds to its base class.
pub record SubclassFactory (A K : Type 0) : Type 0 where
  pub base_classname : String
  pub instance_args : List A
  pub instance_kwargs : List K
  pub secure_credentials : Option SecureCredentials
  pub gateway_credentials : Option GatewayCredentials

module _ {A K : Type 0} where
  -- The constructor: `instance_args or []`.
  unfoldable pub new_factory :
      String
      → Option (List A)
      → Option (List K)
      → Option SecureCredentials
      → Option GatewayCredentials
      → SubclassFactory A K
  new_factory base_classname args kwargs secure gateway = record {
    base_classname = base_classname;
    instance_args = with_default [] args;
    instance_kwargs = with_default [] kwargs;
    secure_credentials = secure;
    gateway_credentials = gateway;
  }

  -- The constructor of `DynamicSubclassModelRunner`, from the answer of its base class.
  unfoldable pub new_subclass_runner :
      SubclassFactory A K → Option ModelRunner → Option (SubclassRunner A K)
  new_subclass_runner f none = none
  new_subclass_runner f (some m) = some (record {
    base_classname = f.base_classname;
    instance_args = f.instance_args;
    instance_kwargs = f.instance_kwargs;
    grpc_stub = none;
    runner = m;
  })

  -- `create_model_runner`; `none` is the `ValueError` of the base class.
  unfoldable pub create_model_runner :
      SubclassFactory A K
      → Key
      → Key
      → Option String
      → Option String
      → Option ℕ
      → Option Infos
      → Option (SubclassRunner A K)
  unfolding new_subclass_runner new_runner
  create_model_runner f deployment_id model_id model_name ip port infos = new_subclass_runner f (
      new_runner deployment_id model_id model_name ip port infos f.secure_credentials
        f.gateway_credentials)
