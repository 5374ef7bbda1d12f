-- ===== src/Execution/Session.antt =====
-- What a session of the Move VM offers beyond calls of the framework: functions and scripts of users,
-- types and their layouts, the EVM native, and the publishing of modules.
use Prim.Native.String.{String}
use op_move.Base.{ℕ, Bool, List, Option, AccountAddress, Bytes}
use op_move.MoveTypes.{TypeTag, MoveValue, MoveTypeLayout}
use op_move.Transaction.Types.{ModuleId}
use op_move.Execution.Vm.{Vm, VmResult}
use op_move.Tags.{TagEnv}

-- `Type` of the runtime, of which the program looks at references only.
pub data RuntimeType : Type 0 where
  reference mutable_reference : RuntimeType → RuntimeType
  other : ℕ → RuntimeType

-- The functions of the module `evm`.
pub data EvmFunction : Type 0 where
  evm_create evm_call evm_deposit : EvmFunction

pub data ModuleOp : Type 0 where
  new modify : Bytes → ModuleOp

pub record Session (vm : Vm) : Type 1 where
  pub Loaded : Type 0
  pub param_tys : Loaded → List RuntimeType
  pub load_function : ModuleId → String → List TypeTag → vm.State → VmResult Loaded
  pub load_script : Bytes → List TypeTag → vm.State → VmResult Loaded
  pub get_type_tag : RuntimeType → vm.State → VmResult TypeTag
  pub get_type_layout : RuntimeType → vm.State → VmResult MoveTypeLayout
  pub tag_env : vm.State → TagEnv
  pub execute_entry_function : Loaded → List Bytes → vm.State → VmResult (Unit {0}) × vm.State
  pub execute_script : Bytes → List TypeTag → List Bytes → vm.State → VmResult (Unit {0}) × vm.State
  -- `execute_function_bypass_visibility` of a function of the module `evm`.
  pub call_evm :
      EvmFunction → List Bytes → vm.State → VmResult (List (Bytes × MoveTypeLayout)) × vm.State
  -- `MoveValue::from` of a script's argument.
  pub value_of_argument : Bytes → MoveValue
  pub simple_serialize : MoveValue → Option Bytes
  -- `ValueSerDeContext::serialize`.
  pub serialize : MoveValue → MoveTypeLayout → Option Bytes
  -- `CompiledModule::deserialize` with `self_id`.
  pub deserialize_module : Bytes → VmResult ModuleId
  -- `StagingModuleStorage::create` with the bundle that it releases.
  pub stage_module : AccountAddress → Bytes → vm.State → VmResult (List (ModuleId × Bytes))
  pub check_module_exists : AccountAddress → String → vm.State → VmResult Bool
  -- `ChangeSet`; no result is a conflict.
  pub ChangeSet : Type 0
  pub no_changes : ChangeSet
  pub add_module_op : ChangeSet → ModuleId → ModuleOp → Option ChangeSet
