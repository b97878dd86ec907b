-- ===== src/Unl/Compute/Undefined.antt =====
-- The write to freed memory in scoreCompute of src/UniqueNodeList/UniqueNodeList.cpp.
use Prim.Native.String.{String}
use bytev.Prelude.Maps.{string_eq}
use bytev.Unl.Index.{Index}
