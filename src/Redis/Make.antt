-- ===== src/Redis/Make.antt =====
-- `makeRedis` of Redis.ts: the service over a connection.
use redfx.Durations.{Durations}
use redfx.Connection.{ConnectionService}
use redfx.Redis.Service.{RedisService}
use redfx.Redis.Keys
use redfx.Redis.Collections
use redfx.Redis.Streams

unfoldable pub make_redis :
    {W : Type 0} → (durations : Durations) → ConnectionService W → RedisService W durations
make_redis durations conn = record {
  get = Keys.get conn;
  set = Keys.set conn durations;
  get_delete = Keys.get_delete conn;
  del = Keys.del conn;
  exists = Keys.exists conn;
  expire = Keys.expire conn durations;
  ttl = Keys.ttl conn durations;
  ttl_state = Keys.ttl_state conn durations;
  incr = Keys.incr conn;
  decr = Keys.decr conn;
  incr_by = Keys.incr_by conn;
  decr_by = Keys.decr_by conn;
  mget = Keys.mget conn;
  mset = Keys.mset conn;
  hset = Collections.hset conn;
  hget = Collections.hget conn;
  hget_all = Collections.hget_all conn;
  hdel = Collections.hdel conn;
  hexists = Collections.hexists conn;
  hincr_by = Collections.hincr_by conn;
  hkeys = Collections.hkeys conn;
  hvals = Collections.hvals conn;
  hlen = Collections.hlen conn;
  hmget = Collections.hmget conn;
  sadd = Collections.sadd conn;
  srem = Collections.srem conn;
  smembers = Collections.smembers conn;
  sismember = Collections.sismember conn;
  scard = Collections.scard conn;
  spop = Collections.spop conn;
  zadd = Collections.zadd conn;
  zrem = Collections.zrem conn;
  zscore = Collections.zscore conn;
  zincr_by = Collections.zincr_by conn;
  zcard = Collections.zcard conn;
  zrank = Collections.zrank conn;
  zrange = Collections.zrange conn;
  zrange_with_scores = Collections.zrange_with_scores conn;
  publish = Keys.publish conn;
  ping = Keys.ping conn;
  call = Keys.call conn;
  pipeline = Keys.pipeline conn;
  xadd = Streams.xadd conn;
  xlen = Streams.xlen conn;
  xrange = Streams.xrange conn;
  xrevrange = Streams.xrevrange conn;
  xdel = Streams.xdel conn;
  xtrim = Streams.xtrim conn;
  xread = Streams.xread conn durations;
  xgroup_create = Streams.xgroup_create conn;
  xack = Streams.xack conn;
  xread_group = Streams.xread_group conn durations;
  xpending = Streams.xpending conn;
  xpending_extended = Streams.xpending_extended conn durations;
  xclaim = Streams.xclaim conn durations;
  xautoclaim = Streams.xautoclaim conn durations;
  xinfo_stream = Streams.xinfo_stream conn;
  xinfo_groups = Streams.xinfo_groups conn;
}
