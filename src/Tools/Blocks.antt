-- ===== src/Tools/Blocks.antt =====
-- dealloc_params of pkg/src/ipc_send.c, and the blocks that param_parser allocates.
pub mod Freed
pub mod Parsed
pub mod All
use af_ipc.Common.{ℕ, zero, suc, Bool, ◌&&◌, not, List, [], ◌∷◌, ◌++◌, ◌==◌, if◌then◌else◌}
use af_ipc.Rpc.Types.{type_is_blob}
use af_ipc.Rpc.Params.{Param, base_value, base_is_null}
use af_ipc.Tools.Parser.{zero_param}

-- What is freed, and the array after that.
abbrev pub Freed : Type 0
Freed = List ℕ × List Param

abbrev pub then_free : List ℕ → Param → Freed → Freed
then_free blocks x (freed, params) = (blocks ++ freed, x ∷ params)

unfoldable pub holds_block : Param → Bool
holds_block x = not (base_is_null x.base) && type_is_blob x.type

-- The loop over the array.
unfoldable pub dealloc_params : List Param → Freed
unfolding holds_block
dealloc_params [] = ([], [])
dealloc_params (x ∷ params) =
    let rest = dealloc_params params in
    if holds_block x
    then then_free (base_value x.base ∷ []) zero_param rest
    else then_free [] x rest

-- The blocks that the first `calls` calls of malloc gave, in order.
abbrev pub given : ℕ → List ℕ
given address = if address == 0 then [] else address ∷ []

abbrev pub allocated : (ℕ → ℕ) → ℕ → List ℕ
allocated malloc zero = []
allocated malloc (suc calls) = allocated malloc calls ++ given (malloc calls)
