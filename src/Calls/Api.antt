-- ===== src/Calls/Api.antt =====
-- The functions of OpenGL ES whose arguments are numbers of 32 bits, as the program and the proxy
-- call them. A GLfloat and a GLint stand for their bit patterns.
use webos_bridge_64to.Common.{ℕ}

pub data GlCall : Type 0 where
  gl_active_texture : (texture : ℕ) → GlCall
  gl_bind_texture : (target texture : ℕ) → GlCall
  gl_copy_tex_image_2d : (target level_arg internalformat x y width height border : ℕ) → GlCall
  gl_copy_tex_sub_image_2d : (target level_arg xoffset yoffset x y width height : ℕ) → GlCall
  gl_generate_mipmap : (target : ℕ) → GlCall
  gl_pixel_storei : (pname param : ℕ) → GlCall
  gl_bind_renderbuffer : (target renderbuffer : ℕ) → GlCall
  gl_renderbuffer_storage : (target internalformat width height : ℕ) → GlCall
  gl_delete_shader : (shader : ℕ) → GlCall
  gl_compile_shader : (shader : ℕ) → GlCall
  gl_release_shader_compiler : GlCall
  gl_delete_program : (program : ℕ) → GlCall
  gl_attach_shader : (program shader : ℕ) → GlCall
  gl_detach_shader : (program shader : ℕ) → GlCall
  gl_link_program : (program : ℕ) → GlCall
  gl_use_program : (program : ℕ) → GlCall
  gl_validate_program : (program : ℕ) → GlCall
  gl_viewport : (x y w h : ℕ) → GlCall
  gl_scissor : (x y width height : ℕ) → GlCall
  gl_enable : (cap : ℕ) → GlCall
  gl_disable : (cap : ℕ) → GlCall
  gl_cull_face : (mode : ℕ) → GlCall
  gl_front_face : (mode : ℕ) → GlCall
  gl_line_width : (width : ℕ) → GlCall
  gl_polygon_offset : (factor units : ℕ) → GlCall
  gl_sample_coverage : (value invert : ℕ) → GlCall
  gl_hint : (target mode : ℕ) → GlCall
  gl_blend_color : (r g b a : ℕ) → GlCall
  gl_blend_equation : (mode : ℕ) → GlCall
  gl_blend_equation_separate : (mode_rgb mode_alpha : ℕ) → GlCall
  gl_blend_func : (sfactor dfactor : ℕ) → GlCall
  gl_blend_func_separate : (src_rgb dst_rgb src_alpha dst_alpha : ℕ) → GlCall
  gl_depth_func : (func : ℕ) → GlCall
  gl_depth_mask : (flag : ℕ) → GlCall
  gl_depth_rangef : (n f : ℕ) → GlCall
  gl_color_mask : (r g b a : ℕ) → GlCall
  gl_stencil_func : (func ref_arg mask : ℕ) → GlCall
  gl_stencil_func_separate : (face func ref_arg mask : ℕ) → GlCall
  gl_stencil_mask : (mask : ℕ) → GlCall
  gl_stencil_mask_separate : (face mask : ℕ) → GlCall
  gl_stencil_op : (fail zfail zpass : ℕ) → GlCall
  gl_stencil_op_separate : (face sfail dpfail dppass : ℕ) → GlCall
  gl_clear : (mask : ℕ) → GlCall
  gl_clear_color : (r g b a : ℕ) → GlCall
  gl_clear_depthf : (d : ℕ) → GlCall
  gl_clear_stencil : (s : ℕ) → GlCall
  gl_flush : GlCall
  gl_begin_query : (target id : ℕ) → GlCall
  gl_end_query : (target : ℕ) → GlCall
  gl_bind_sampler : (unit sampler : ℕ) → GlCall
  gl_draw_arrays_instanced : (mode first count instancecount : ℕ) → GlCall
  gl_copy_tex_sub_image_3d :
      (target level_arg xoffset yoffset zoffset x y width height : ℕ) → GlCall
  gl_vertex_attrib_i4i : (index x y z w : ℕ) → GlCall
  gl_vertex_attrib_i4ui : (index x y z w : ℕ) → GlCall
  gl_end_transform_feedback : GlCall
  gl_uniform1ui : (location v0 : ℕ) → GlCall
  gl_uniform2ui : (location v0 v1 : ℕ) → GlCall
  gl_uniform3ui : (location v0 v1 v2 : ℕ) → GlCall
  gl_uniform4ui : (location v0 v1 v2 v3 : ℕ) → GlCall
  gl_tex_storage_3d : (target levels internalformat width height depth : ℕ) → GlCall
  gl_color_maski : (index r g b a : ℕ) → GlCall
  gl_enablei : (cap index : ℕ) → GlCall
  gl_disablei : (cap index : ℕ) → GlCall
  gl_bind_buffer_base : (target index buffer : ℕ) → GlCall
  gl_sampler_parameteri : (sampler pname param : ℕ) → GlCall
  gl_sampler_parameterf : (sampler pname param : ℕ) → GlCall
  gl_begin_transform_feedback : (primitive_mode : ℕ) → GlCall
  gl_uniform_block_binding : (program uniform_block_index uniform_block_binding : ℕ) → GlCall
  gl_renderbuffer_storage_multisample : (target samples internalformat width height : ℕ) → GlCall
  gl_blit_framebuffer :
      (src_x0 src_y0 src_x1 src_y1 dst_x0 dst_y0 dst_x1 dst_y1 mask filter : ℕ) → GlCall
  gl_bind_transform_feedback : (target id : ℕ) → GlCall
  gl_pause_transform_feedback : GlCall
  gl_resume_transform_feedback : GlCall
  gl_bind_image_texture : (unit texture level_arg layered layer access format : ℕ) → GlCall
  gl_pop_debug_group : GlCall
  gl_read_buffer : (src : ℕ) → GlCall
  gl_clear_bufferfi : (buffer drawbuffer depth stencil : ℕ) → GlCall
  gl_tex_buffer : (target internalformat buffer : ℕ) → GlCall
  gl_program_parameteri : (program pname value : ℕ) → GlCall
  gl_tex_storage_3d_multisample :
      (target samples internalformat width height depth fixedsamplelocations : ℕ) → GlCall
  gl_min_sample_shading : (value : ℕ) → GlCall
  gl_copy_image_sub_data :
      (src_name src_target src_level src_x src_y src_z dst_name dst_target dst_level dst_x dst_y
        dst_z src_width src_height src_depth : ℕ)
      → GlCall
  gl_memory_barrier : (barriers : ℕ) → GlCall
  gl_dispatch_compute : (num_groups_x num_groups_y num_groups_z : ℕ) → GlCall
  gl_tex_storage_2d_multisample :
      (target samples internalformat width height fixedsamplelocations : ℕ) → GlCall
  gl_primitive_bounding_box : (min_x min_y min_z min_w max_x max_y max_z max_w : ℕ) → GlCall
  gl_use_program_stages : (pipeline stages program : ℕ) → GlCall
  gl_bind_program_pipeline : (pipeline : ℕ) → GlCall
  gl_active_shader_program : (pipeline program : ℕ) → GlCall
  gl_validate_program_pipeline : (pipeline : ℕ) → GlCall
  gl_memory_barrier_by_region : (barriers : ℕ) → GlCall
  gl_blend_barrier : GlCall
  gl_patch_parameteri : (pname value : ℕ) → GlCall
