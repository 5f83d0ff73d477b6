-- ===== src/Reudp/Receive/Frame.antt =====
-- What sending an acknowledgement leaves alone.
use runeverything.Reudp.Endpoint.Frame.{Same, write_raw-Same}
use runeverything.Reudp.Endpoint.{Endpoint}
use runeverything.Reudp.Receive.{Env, send_ack}
use runeverything.Base.Float64.{Float64}
use runeverything.Base.{ℕ}

pub send_ack-Same :
    {F : Type 0} ⦃fl : Float64 F⦄ (env : Env) (cum : ℕ) (ep : Endpoint F)
    → Same ep (send_ack env cum ep)
unfolding send_ack
send_ack-Same env cum ep = write_raw-Same env.net _ ep
