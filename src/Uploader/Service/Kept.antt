-- ===== src/Uploader/Service/Kept.antt =====
-- An uploaded file stays until somebody asks for its deletion with its hash: the service of
-- uploader/uploader.go over time.
use Prim.Native.String.{◌++◌ as append}
use potat_api.Base.{String}
use potat_api.Uploader.Service.{Service}
