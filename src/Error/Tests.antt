-- ===== src/Error/Tests.antt =====
-- Runs of the codes at concrete values.
use node_dubbo.Prelude.{◌≡◌, refl, some}
use node_dubbo.Error.Codes.{Code}
use node_dubbo.Error.CodeString.{code_to_string, code_from_string}

to_string_run : code_to_string Code.permission_denied ≡ "permission_denied"
unfolding code_to_string
to_string_run = refl

from_string_run : code_from_string "data_loss" ≡ some Code.data_loss
unfolding code_from_string code_to_string
from_string_run = refl
