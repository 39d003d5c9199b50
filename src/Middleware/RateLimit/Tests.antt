-- ===== src/Middleware/RateLimit/Tests.antt =====
-- The limiter run against the server in memory.
use potat_api.Base.{[], ◌∷◌, ◌-◌, ◌≡◌, refl, true, arith}
use Prim.Native.Nat.{min}
use potat_api.Http.{Request}
use potat_api.Middleware.RateLimit.{client_ip, get_ip_token}
use potat_api.Middleware.RateLimit.Limit.{IsLasting, admitted, admitted-eq-min}
use potat_api.Middleware.RateLimit.Memory.{memory-IsReliable, Memory, memory, empty}

empty-IsLasting : IsLasting memory empty
empty-IsLasting k h = absurd (omega arith)

abbrev busy : Memory
busy k = (24, true)

abbrev upload : Request
upload = record {
  method = "POST";
  uri = "/upload";
  host = "i.potat.app";
  remote_addr = "10.0.0.1:999";
  headers = ("Cf-Connecting-Ip", "1.2.3.4") ∷ [];
}

first_three : admitted memory "1.2.3.4" 3 60 5 empty ≡ 3
unfolding admitted get_ip_token
first_three = refl

client_ip_forwarded : client_ip upload ≡ "1.2.3.4"
unfolding client_ip
client_ip_forwarded = refl

admitted-eq-min_example : admitted memory "1.2.3.4" 3 60 5 empty ≡ min 5 (3 - 0)
admitted-eq-min_example =
    admitted-eq-min memory "1.2.3.4" 3 60 5 empty (omega arith) memory-IsReliable
